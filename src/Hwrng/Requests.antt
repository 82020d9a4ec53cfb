-- ===== src/Hwrng/Requests.antt =====
-- What a message of a client adds to its request (hwrng_chan_handle_msg of app/hwcrypto/hwrng_srv.c).
use trusty_lk_nxp.Common.{ℕ, ◌≡◌, refl, ap, ◌∙◌, ◌⊎◌, inl, inr, Bool, true, false, some, arith}
use mathlib.Core.Path.{subst}
use trusty_lk_nxp.Common.Int.{ℤ, pos, is_negative, int_eq}
use trusty_lk_nxp.Platform.{Platform}
use trusty_lk_nxp.Machine.{State, HwrngChanCtx}
use trusty_lk_nxp.Machine.Outcome.{Ensures, of_Returned, bind, mono}
use trusty_lk_nxp.Machine.Sent.{messages, IsSilent}
use trusty_lk_nxp.Caam.Frame.{kept}
use trusty_lk_nxp.Tipc.Receive.{IpcLaws, PutBack}
use trusty_lk_nxp.Hwrng.Links.{ListLaws}
use trusty_lk_nxp.Hwrng.Server.{hwrng_chan_handle_msg}
use trusty_lk_nxp.Hwrng.Channels.{ReqLenFits}
use trusty_lk_nxp.Tipc.Whole.{HasMessage, reading, tipc_recv_single_buf-Receipt, NoMessage}
use trusty_lk_nxp.Hwrng.Asked.{
  Grown, asked_total, Requested, Requested-Grown, Requested-kept, queue_request-Requested,
}

same_int : (n : ℕ) → int_eq (pos n) (pos n) ≡ true
same_int n = ground arith

not_negative : (n : ℕ) (rc : ℤ) → is_negative rc ≡ true → int_eq rc (pos n) ≡ false
not_negative n rc h = grind arith

clash : {x : Bool} → x ≡ true → x ≡ false → ⊥
clash h h' = cc

module _ ⦃p : Platform⦄ where
  open p use {hwrng_req_size, hwrng_req_len}

  -- the length that the pending message asks for, and what its client is owed with it
  abbrev pub asked_len : HwrngChanCtx → State → ℕ
  asked_len ctx s = hwrng_req_len (reading ctx.chan hwrng_req_size s).1

  abbrev pub new_total : ℕ → HwrngChanCtx → State → ℕ
  new_total a ctx s = asked_total a (asked_len ctx s) s

  -- what a message does: a whole request that can be read adds its length to what the client is owed;
  -- of any other one an error is reported, and nothing that the server keeps changes
  abbrev pub Taken : ℕ → HwrngChanCtx → State → ℤ → State → Type 0
  Taken a ctx s rc t =
      IsSilent s t
      × PutBack ctx.chan s t
      × (((rc ≡ pos 0)
            × HasMessage ctx.chan hwrng_req_size s
            × Grown a (hwrng_req_len (reading ctx.chan hwrng_req_size s).1) s t)
          ⊎ ((is_negative rc ≡ true) × NoMessage ctx.chan hwrng_req_size s × (kept t ≡ kept s)))

  PutBack-calls :
      (chan : ℤ) (s t u : State) → u.calls ≡ t.calls → PutBack chan s t → PutBack chan s u
  PutBack-calls chan s t u e (inl (bad, same)) = inl (bad, e ∙ same)
  PutBack-calls chan s t u e (inr (got, same)) = inr (got, e ∙ same)

  PutBack-IsSilent : (chan : ℤ) (s t : State) → PutBack chan s t → IsSilent s t
  PutBack-IsSilent chan s t (inl (bad, same)) = ap messages same
  PutBack-IsSilent chan s t (inr (got, same)) = ap messages same

  -- how a message is handled, in detail
  abbrev Handled : ℕ → HwrngChanCtx → State → ℤ → State → Type 0
  Handled a ctx s rc t =
      IsSilent s t
      × PutBack ctx.chan s t
      × (((rc ≡ pos 0)
            × HasMessage ctx.chan hwrng_req_size s
            × Requested a ctx (new_total a ctx s) s t)
          ⊎ ((is_negative rc ≡ true) × NoMessage ctx.chan hwrng_req_size s × (kept t ≡ kept s)))

  hwrng_chan_handle_msg-Handled :
      {strict : Bool} (ipc : IpcLaws) (lists : ListLaws) (fits : ReqLenFits) (a : ℕ)
      (ctx : HwrngChanCtx) (s : State)
      → s.hwrng_ctxs a ≡ some ctx
      → Ensures strict (Handled a ctx s) (hwrng_chan_handle_msg a s)
  unfolding hwrng_chan_handle_msg
  hwrng_chan_handle_msg-Handled ipc lists fits a ctx s e = rw e (
      bind (tipc_recv_single_buf-Receipt ctx.chan hwrng_req_size s ipc)
        λ (rc, req) t (k, back, end). elim end [
          | inr (bad, nothing) ↦
              rw (not_negative hwrng_req_size rc bad)
                (of_Returned _ _ (PutBack-IsSilent _ s t back, back, inr (bad, nothing, k)))
          | inl (whole, there, content) ↦
              let count : int_eq rc (pos hwrng_req_size) ≡ true =
                ap (λ r. int_eq r (pos hwrng_req_size)) whole ∙ same_int hwrng_req_size in
              rw count (
                bind
                  (queue_request-Requested lists a ctx (hwrng_req_len req) t
                    (ap (λ k. k.hwrng_ctxs a) k ∙ e) (fits req))
                  λ _ u (requested, same).
                    let back' : PutBack ctx.chan s u = PutBack-calls ctx.chan s t u same back in
                    of_Returned _ _ (
                      PutBack-IsSilent _ s u back',
                      back',
                      inl (
                        refl,
                        there,
                        subst (λ m. Requested a ctx (asked_total a (hwrng_req_len m) s) s u) content
                            (Requested-kept a (hwrng_req_len req) ctx s t u k requested),
                      ),
                    ))
        ])

  -- A message of a client: when it has exactly the length of a request and can be read, the length that it
  -- asks for is added to what that client has still to be sent, modulo 2^32, and what the others are to be
  -- sent does not change; without a message, with one of another length, or with one that cannot be read,
  -- the result is an error, and nothing that the server keeps changes. Nothing is sent, and a message that
  -- was got is put back once. This is where the context is allocated, the IPC calls and the list
  -- library keep their laws, and the length in a request is of 32 bits.
  pub hwrng_chan_handle_msg-Taken :
      {strict : Bool} (ipc : IpcLaws) (lists : ListLaws) (fits : ReqLenFits) (a : ℕ)
      (ctx : HwrngChanCtx) (s : State)
      → s.hwrng_ctxs a ≡ some ctx
      → Ensures strict (Taken a ctx s) (hwrng_chan_handle_msg a s)
  hwrng_chan_handle_msg-Taken ipc lists fits a ctx s e =
      mono (hwrng_chan_handle_msg-Handled ipc lists fits a ctx s e) λ rc t (silent, back, end). (
        silent,
        back,
        elim end [
          | inl (ok, there, requested) ↦
              inl (ok, there, Requested-Grown a (asked_len ctx s) ctx s t requested)
          | inr none_there ↦ inr none_there
        ],
      )

  -- A message that has the length of a request and can be read is taken.
  pub hwrng_chan_handle_msg-Requested :
      {strict : Bool} (ipc : IpcLaws) (lists : ListLaws) (fits : ReqLenFits) (a : ℕ)
      (ctx : HwrngChanCtx) (s : State)
      → s.hwrng_ctxs a ≡ some ctx
      → HasMessage ctx.chan hwrng_req_size s
      → Ensures strict
          (λ rc t. (rc ≡ pos 0) × IsSilent s t × Requested a ctx (new_total a ctx s) s t)
          (hwrng_chan_handle_msg a s)
  hwrng_chan_handle_msg-Requested ipc lists fits a ctx s e (got, size, readable) =
      mono (hwrng_chan_handle_msg-Handled ipc lists fits a ctx s e) λ rc t (silent, back, end).
        elim end [
          | inl (ok, there, requested) ↦ (ok, silent, requested)
          | inr (bad, nothing, k) ↦ absurd (elim nothing [
            | inl negative ↦ clash negative (ap is_negative got)
            | inr (inl other) ↦ other size
            | inr (inr unreadable) ↦ clash unreadable readable
          ])
        ]
