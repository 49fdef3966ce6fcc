-- ===== src/Session/Client/Traffic.antt =====
-- How many requests a call of api.ts sends, and which.
use netfleet.Common.{
  ◌+◌, ◌≤◌, ◌≡◌, refl, Option, ◌∷◌, true, not, ◌&&◌, ◌⊎◌, arith, length, Text, codes, includes,
  ends_with, inl, inr, if◌then◌else◌,
}
use netfleet.Session.Client.{
  Env, Tab, Request, Reply, response, no_response, fetch, finish_refresh, do_refresh,
  refresh_request, current_token, before_request, retry, after_response, send, skips_refresh,
  skips_retry, store_token, has_text,
}
use netfleet.Session.Storage.{is_expiring_soon, get_access_token}

module _ (env : Env) where
  finish_refresh-sent : (r : Reply) (w : Tab) → (finish_refresh env r w).0.sent ≡ w.sent
  unfolding finish_refresh store_token
  finish_refresh-sent (no_response m) w = refl
  finish_refresh-sent (response status reason body) w = ground arith

  -- A refresh is one request.
  pub do_refresh-sent : (w : Tab) → (do_refresh env w).0.sent ≡ refresh_request env ∷ w.sent
  unfolding do_refresh fetch
  do_refresh-sent w =
      finish_refresh-sent (fetch env (refresh_request env) w).1
        (fetch env (refresh_request env) w).0

  before_request-sent :
      (req : Request) (w : Tab)
      → (before_request env req w).0.sent ≡ (
          if not (skips_refresh req.url) && is_expiring_soon w.now 60000 w.storage
          then refresh_request env ∷ w.sent
          else w.sent)
  unfolding before_request current_token
  before_request-sent req w = ground (arith, do_refresh-sent w)

  retry-sent :
      (req : Request) (reply : Reply) (t : Option Text) (w : Tab)
      → (retry env req reply t w).0.sent
        ≡ (if has_text t then record req { bearer = t } ∷ w.sent else w.sent)
  unfolding retry fetch
  retry-sent req reply t w = ground arith

  -- The requests that a call adds: the refresh of `beforeRequest`, the call itself, the refresh of
  -- `afterResponse` and the call once more.
  after_response-sent_le :
      (req : Request) (reply : Reply) (w : Tab)
      → (length w.sent ≤ length (after_response env req reply w).0.sent)
        × (length (after_response env req reply w).0.sent ≤ length w.sent + 2)
  unfolding after_response
  after_response-sent_le req (no_response m) w = omega arith
  after_response-sent_le req (response status reason body) w = ground (
    arith,
    do_refresh-sent w,
    retry-sent req (response status reason body) (do_refresh env w).1 (do_refresh env w).0,
  )

  -- However the server answers, a call makes at least one exchange and at most four: no answer makes
  -- it refresh or retry for ever. An exchange in which ky repeats a request by itself counts once.
  pub send-sent_le :
      (req : Request) (w : Tab)
      → (length w.sent + 1 ≤ length (send env req w).0.sent)
        × (length (send env req w).0.sent ≤ length w.sent + 4)
  unfolding send fetch
  send-sent_le req w =
      let (w', wire) = before_request env req w in
      let (w'', reply) = fetch env wire w' in
      ground (arith, before_request-sent req w, after_response-sent_le wire reply w'')

-- `/auth/refresh` and `/auth/login` are excluded from both hooks.
abbrev pub IsBootstrap : Text → Type 0
IsBootstrap url =
    (includes url (codes "/auth/refresh") ≡ true) ⊎ (ends_with url (codes "/auth/login") ≡ true)

skips-IsBootstrap :
    (url : Text) → IsBootstrap url → (skips_refresh url ≡ true) × (skips_retry url ≡ true)
unfolding skips_refresh skips_retry
skips-IsBootstrap url (inl h) = rw h (refl, refl)
skips-IsBootstrap url (inr h) = ground arith

module _ (env : Env) where
  before_request-skipped :
      (req : Request) (w : Tab)
      → skips_refresh req.url ≡ true
      → ((before_request env req w).0 ≡ record w { storage = (get_access_token w.now w.storage).0 })
        × ((before_request env req w).1.url ≡ req.url)
  unfolding before_request current_token
  before_request-skipped req w h = ground arith

  after_response-skipped :
      (req : Request) (reply : Reply) (w : Tab)
      → skips_retry req.url ≡ true
      → after_response env req reply w ≡ (w, reply)
  unfolding after_response
  after_response-skipped req (no_response m) w h = refl
  after_response-skipped req (response status reason body) w h = ground arith

  -- A refresh and a sign-in are sent once and alone, whatever the answer: the call gives what the
  -- server answered, leaves the flag of the last refresh, and changes the storage only as reading
  -- the token does. So a 401 for a wrong password neither refreshes nor ends a session.
  pub send-IsBootstrap :
      (req : Request) (w : Tab)
      → IsBootstrap req.url
      → ((send env req w).0.sent ≡ (before_request env req w).1 ∷ w.sent)
        × ((send env req w).1 ≡ (env.serve w.sent (before_request env req w).1).0)
        × ((send env req w).0.last_refresh_rejected ≡ w.last_refresh_rejected)
        × ((send env req w).0.storage ≡ (get_access_token w.now w.storage).0)
  unfolding send fetch
  send-IsBootstrap req w h =
      let (no_refresh, no_retry) = skips-IsBootstrap req.url h in
      let (same, url) = before_request-skipped req w no_refresh in
      let (w', wire) = before_request env req w in
      let (w'', reply) = fetch env wire w' in
      rw (after_response-skipped wire reply w'' (rw url no_retry), same) (refl, refl, refl, refl)
