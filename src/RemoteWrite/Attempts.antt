-- ===== src/RemoteWrite/Attempts.antt =====
-- `sendSeries` of internal/remote_write/remote_write.go: the requests of one delivery and its outcome.
use systemd_transition_expor.Base.{
  ℕ, zero, suc, ◌+◌, ◌≤◌, ◌<◌, ◌≡◌, ◌≢◌, Bool, true, ◌&&◌, Option, none, some, [], ◌∷◌, ◌++◌, arith,
}
use systemd_transition_expor.RemoteWrite.Series.{Request}
use systemd_transition_expor.RemoteWrite.{
  status, SendError, permanent, World, Sender, judge, settle, note_failure, note_retry, asked,
  attempt, send_series, max_attempts,
}

-- What a delivery may change: the request is accepted exactly if no error is returned, the
-- checkpoint and the position stay, some requests were made if a first one `starts`, and not more
-- than so many.
pub record Attempted (starts : Bool) (most : ℕ) (r : Request) (s : Sender) (x : Option SendError)
    (s' : Sender) : Type 0 where
  pub delivered : x ≡ none → s'.accepted ≡ s.accepted ++ r ∷ []
  pub undelivered : x ≢ none → s'.accepted ≡ s.accepted
  pub position : s'.last_sent ≡ s.last_sent
  pub file : s'.checkpoint ≡ s.checkpoint
  pub sizes : s'.batch_size ≡ s.batch_size
  not_fewer : s.requests ≤ s'.requests
  some_request : starts ≡ true → s.requests < s'.requests
  few_requests : s'.requests ≤ s.requests + most

module _ (world : World) where
  attempt-Attempted :
      (left : ℕ) (r : Request) (s : Sender)
      → Attempted
          (world.makes s.requests)
          (suc left)
          r
          s
          (attempt world left r s).0
          (attempt world left r s).1
  unfolding attempt settle judge note_retry
  attempt-Attempted zero r s = ground arith
  attempt-Attempted (suc left) r s =
      ground (arith, attempt-Attempted left r (note_retry (note_failure (asked s))))

  -- `sendSeries` makes at most three requests, and at least one where the request can be encoded and
  -- the first attempt can make it. Its request counts as answered by a 2xx status if it returns no
  -- error, and does not if it returns one; the position, the checkpoint and the batch size stay.
  pub send_series-Attempted :
      (r : Request) (s : Sender)
      → Attempted
          (world.encodes r && world.makes s.requests)
          max_attempts
          r
          s
          (send_series world r s).0
          (send_series world r s).1
  unfolding send_series
  send_series-Attempted r s = ground (arith, attempt-Attempted 2 r s)

  -- A 4xx answer to the first request is final: it is returned as permanent after one request,
  -- and nothing was accepted.
  send_series_rejected :
      (r : Request) (s : Sender) (c : ℕ)
      → world.encodes r ≡ true
      → world.makes s.requests ≡ true
      → world.net s.requests ≡ status c
      → 400 ≤ c
      → c < 500
      → ((send_series world r s).0 ≡ some (permanent c))
        × ((send_series world r s).1.requests ≡ s.requests + 1)
        × ((send_series world r s).1.accepted ≡ s.accepted)
  unfolding send_series attempt settle judge
  send_series_rejected r s c en mk h lo hi = rw (en, mk, h) (ground arith)
