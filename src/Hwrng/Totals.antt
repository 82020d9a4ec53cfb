-- ===== src/Hwrng/Totals.antt =====
-- What a client of app/hwcrypto/hwrng_srv.c is sent over a whole request, by the record of the calls.
use trusty_lk_nxp.Common.{
  ℕ, zero, suc, ◌+◌, ◌^◌, ◌<◌, min, ◌≡◌, ap, ◌∙◌, inl, inr, Bool, true, false, some, List, [], ◌∷◌,
  arith,
}
use trusty_lk_nxp.Common.Int.{ℤ}
use trusty_lk_nxp.Platform.{Platform}
use trusty_lk_nxp.Machine.{State, HwrngChanCtx}
use trusty_lk_nxp.Machine.Outcome.{
  Ensures, returned, bind, mono, both, Partial, Partial-mono, Ensures-Partial,
}
use trusty_lk_nxp.Machine.Sent.{messages, bytes_sent}
use trusty_lk_nxp.Caam.Device.{DeviceLaws, WithinBuffer}
use trusty_lk_nxp.Hwrng.Links.{contains, Unique, ListLaws}
use trusty_lk_nxp.Hwrng.Server.{serve_request, serve_requests, hwrng_handle_req_queue}
use trusty_lk_nxp.Hwrng.Queue.{entries}
use trusty_lk_nxp.Hwrng.Rounds.{SendsSucceed, Due, Half, serve_request-Half}
use trusty_lk_nxp.Hwrng.Progress.{passes, hwrng_handle_req_queue-Due, Due-Half, entries-passes}
use trusty_lk_nxp.Hwrng.Accounts.{left_of, IsOwnChan, Account, Account-Sends}
use trusty_lk_nxp.Hwrng.Reply.{after_piece, serve_request-Sends}

module _ ⦃p : Platform⦄ where
  module _ (sends : SendsSucceed) (lists : ListLaws) (within : WithinBuffer) where
    serve_request-Account :
        (chan : ℤ) (a n b : ℕ) (ctx : HwrngChanCtx) (more : Bool) (s : State)
        → s.hwrng_ctxs b ≡ some ctx
        → ctx.send_blocked ≡ false
        → ctx.req_size < 2 ^ 32
        → contains b (entries s) ≡ true
        → Account chan a n s
        → Partial (λ _ t. Account chan a n t) (serve_request b more s)
    serve_request-Account chan a n b ctx more s e free small here account =
        Partial-mono (serve_request-Sends sends lists within b ctx more s e free small here)
          λ more' t (sent, flag).
            Account-Sends chan a b (record ctx { send_blocked = false }) (min 4096 ctx.req_size)
              (after_piece ctx) s t account.0
              (e ∙ ap (λ x. some (record ctx { send_blocked = x })) free) sent n here (omega arith)
              account

    module _ {strict : Bool} (laws : strict ≡ true → DeviceLaws) (chan : ℤ) (a n : ℕ) where
      serve_requests-Account :
          (k : ℕ) (rest : List ℕ) (more : Bool) (s : State)
          → Unique rest
          → Half k rest s
          → Account chan a n s
          → Ensures strict (λ _ t. Account chan a n t) (serve_requests rest more s)
      unfolding serve_requests
      serve_requests-Account k [] more s unique half account = returned account
      serve_requests-Account k (b ∷ rest) more s (out, unique) half account =
          let here : contains b (entries s) ≡ true = half.1 b (ground arith) in
          let (ctx, e) = half.0.1 b here in
          bind
            (Ensures-Partial (serve_request-Half sends lists within laws k b rest more s out half) (
              serve_request-Account chan a n b ctx more s e (half.2 b ctx here e).0
                (half.0.0 b ctx e) here account))
            λ more' t (half', account'). serve_requests-Account k rest more' t unique half' account'

      pub hwrng_handle_req_queue-Account :
          (k : ℕ) (s : State)
          → Due (suc k) s
          → Account chan a n s
          → Ensures strict (λ _ t. Account chan a n t) (hwrng_handle_req_queue s)
      unfolding hwrng_handle_req_queue
      hwrng_handle_req_queue-Account k s due account =
          serve_requests-Account k (entries s) false s due.0.2 (Due-Half k s due) account

      pub passes-Account :
          (k : ℕ) (s : State)
          → Due k s
          → Account chan a n s
          → Ensures strict (λ _ t. Account chan a n t) (passes k s)
      passes-Account zero s due account = returned account
      passes-Account (suc k) s due account =
          bind
            (both (hwrng_handle_req_queue-Due sends lists within laws k s due)
              (hwrng_handle_req_queue-Account k s due account))
            λ more t (due', account'). passes-Account k t due' account'

    pub served_in_full :
        (chan : ℤ) (a n : ℕ) (t : State)
        → entries t ≡ []
        → Account chan a n t
        → bytes_sent chan (messages t.calls) ≡ n
    served_in_full chan a n t e (own, sum, inr served) = omega (arith, sum, served)
    served_in_full chan a n t e (own, sum, inl here) = absurd (empty (ap (contains a) e) here)
      where
        empty : contains a (entries t) ≡ false → contains a (entries t) ≡ true → ⊥
        empty h h' = cc

    -- Where there is room for every message and no channel waits for room, k passes over a well-formed
    -- queue, whose requests are of at most 4096 k bytes each, serve them all: the queue is empty then,
    -- and a client whose request is queued, and whose channel no other context has, is sent exactly as
    -- many bytes as are left of its request, not one less and not one more. Under the laws of the
    -- device the passes come to their end; without them they may also stop by an assert or wait for
    -- ever.
    pub bytes_sent-passes :
        {strict : Bool} (laws : strict ≡ true → DeviceLaws) (k a : ℕ) (ctx : HwrngChanCtx)
        (s : State)
        → Due k s
        → contains a (entries s) ≡ true
        → s.hwrng_ctxs a ≡ some ctx
        → IsOwnChan ctx.chan a s
        → Ensures strict
            (λ _ t.
              (bytes_sent ctx.chan (messages t.calls)
                ≡ bytes_sent ctx.chan (messages s.calls) + ctx.req_size)
              × (entries t ≡ []))
            (passes k s)
    bytes_sent-passes laws k a ctx s due here e own =
        mono
          (both (entries-passes sends lists within laws k s due) (
            passes-Account laws ctx.chan a (bytes_sent ctx.chan (messages s.calls) + ctx.req_size) k
              s due
              (own, ap (λ o. bytes_sent ctx.chan (messages s.calls) + left_of o) e, inl here)))
          λ _ t (done, account). (served_in_full ctx.chan a _ t done account, done)
