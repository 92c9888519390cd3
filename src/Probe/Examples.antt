-- ===== src/Probe/Examples.antt =====
-- The probes at concrete packets and rounds.
use systemd_transition_expor.Base.{
  ℕ, ◌++◌, ◌≡◌, refl, true, false, none, some, List, [], ◌∷◌, arith,
}
use systemd_transition_expor.Base.Text.{Text, codes, text_eq}
use systemd_transition_expor.Base.Decimal.{decimal, decimal_from}
use systemd_transition_expor.Base.Dict.{lookup, insert, remove}
use systemd_transition_expor.Probe.Agw.{ping, token_of, is_pong, is_pong_once}
use systemd_transition_expor.Probe.Sip.{
  Message, options, is_ok, hex, host_of, header_lines, joined_lines,
}
use systemd_transition_expor.Probe.Sip.Reply.{is_ok-reply}
use systemd_transition_expor.Probe.Prober.{
  Probe, Op, start_op, stop_op, finish_op, perform_all, new, start, stop, finish,
}
use systemd_transition_expor.Probe.Loops.{one_loop, live, registered, Falling}
use systemd_transition_expor.Probe.Rounds.{Round, packet, timeout, probe_once, run_probe, agw_probe}
use systemd_transition_expor.Probe.Spacing.{run_probe-Spaced, Spaced}
use systemd_transition_expor.Probe.Answers.{ready_first, deliver}

is_pong_once_example : is_pong (codes "0_7_1 d6:result4:ponge") (token_of 7 2) ≡ false
unfolding is_pong token_of decimal decimal_from
is_pong_once_example =
    is_pong_once (codes "0_7_1 d6:result4:ponge") 7 1 2 (λ e. absurd (omega (arith, e))) refl

abbrev target : Text
target = codes "sip:10.0.0.1:5060"

abbrev local_host : Text
local_host = codes "10.0.0.1"

abbrev headers : List Text
headers =
    header_lines target (host_of local_host) 5070 1 (hex (171 ∷ [])) (hex (1 ∷ [])) (hex (2 ∷ []))

abbrev message : Message
message = record {
  call_id = hex (171 ∷ []);
  bytes = joined_lines ((codes "OPTIONS " ++ (target ++ codes " SIP/2.0")) ∷ headers);
}

is_ok-reply_example :
    is_ok (joined_lines (codes "SIP/2.0 200 OK" ∷ headers)) (codes "ab")
    ≡ text_eq (codes "ab") (codes "ab")
unfolding options
is_ok-reply_example =
    is_ok-reply target local_host 5070 1 (171 ∷ []) (1 ∷ []) (2 ∷ []) message (codes "ab")
      (
        refl,
        (
          refl,
          (
            refl,
            (
              refl,
              (
                refl,
                (
                  refl,
                  (
                    refl,
                    (
                      refl,
                      (refl, (refl, (refl, (refl, (refl, (refl, (refl, (refl, (refl, tt))))))))),
                    ),
                  ),
                ),
              ),
            ),
          ),
        ),
      )
      (refl, (refl, (refl, (refl, (refl, (refl, (refl, (refl, tt)))))))) refl

abbrev sip_service : Probe
sip_service = record {
  service = "sip";
  uri = "sip:10.0.0.1:5060";
  addr = "10.0.0.1:5060";
  interval = 700;
}

-- A loop is stopped, a second one starts, and the first returns after that.
abbrev restarted : List Op
restarted =
    start_op "sip" ∷ start_op "sip" ∷ stop_op "sip" ∷ start_op "sip" ∷ finish_op "sip" 1 ∷ []

one_loop_example :
    let p = perform_all restarted (new (sip_service ∷ [])) in
    (live "sip" (p.loops) ≡ registered "sip" (lookup "sip" (p.running)))
    × Falling (p.next) (p.loops)
one_loop_example = one_loop (sip_service ∷ []) restarted "sip" (omega arith)

restarted_alive : lookup "sip" ((perform_all restarted (new (sip_service ∷ []))).running) ≡ some 2
unfolding new start stop finish lookup insert remove
restarted_alive = refl

-- A round without an answer, and one that reads the pong of the first ping before its own.
abbrev silent : Round ℕ
silent = record {
  begun = 0;
  connected = true;
  inputs = 0;
  at = 1;
  written = true;
  written_at = 1;
  reading = timeout 101;
}

abbrev own_pong : Text
own_pong = codes "0_7_2 d6:result4:ponge"

abbrev late : List (ℕ × Text)
late = (102, codes "0_7_1 d6:result4:ponge") ∷ []

abbrev answered_round : Round ℕ
answered_round = record {
  begun = 101;
  connected = true;
  inputs = 1;
  at = 101;
  written = true;
  written_at = 101;
  reading = deliver late (packet 103 own_pong (timeout 201));
}

run_probe-Spaced_example : Spaced 100 (
    (run_probe
      (λ cseq seq. some (ping 7 seq))
      (λ q bytes. is_pong bytes q.1)
      100
      none
      1
      (silent ∷ answered_round ∷ [])).sends)
unfolding probe_once ping token_of is_pong decimal decimal_from
run_probe-Spaced_example =
    run_probe-Spaced (λ cseq seq. some (ping 7 seq)) (λ q bytes. is_pong bytes q.1) 100 none 0
      (silent ∷ answered_round ∷ [])
      (
        omega arith,
        (
          (omega arith, (omega arith, (omega arith, omega arith))),
          (
            omega arith,
            (
              (
                omega arith,
                (omega arith, (omega arith, (omega arith, (omega arith, omega arith)))),
              ),
              tt,
            ),
          ),
        ),
      )

ready_first_example : (agw_probe 7 100 none (silent ∷ answered_round ∷ [])).ready ≡ some 103
unfolding probe_once ping token_of is_pong decimal decimal_from
ready_first_example =
    ready_first (λ cseq seq. some (ping 7 seq)) (λ q bytes. is_pong bytes q.1) 100 none
      (silent ∷ []) [] answered_round (ping 7 1) late 103 own_pong (timeout 201) (refl, (refl, tt))
      refl refl refl refl refl ((refl, omega arith), tt) refl
