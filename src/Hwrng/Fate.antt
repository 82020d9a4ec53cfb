-- ===== src/Hwrng/Fate.antt =====
-- What becomes of one request of the queue of app/hwcrypto/hwrng_srv.c, by the result of the send.
use trusty_lk_nxp.Common.{
  if_same, if_other, ℕ, zero, suc, ◌+◌, ◌-◌, ◌^◌, ◌<◌, min, ◌≡◌, ◌≢◌, refl, ap, ◌∙◌, inl, inr, Bool,
  true, false, not, Option, none, some, List, [], ◌∷◌, ◌++◌, arith, Bool-cases, ◌==◌, ltb,
  if◌then◌else◌, length, All,
}
use trusty_lk_nxp.Common.Int.{ℤ, is_negative, int_eq}
use trusty_lk_nxp.Common.Memory.{Memory, load_bytes}
use trusty_lk_nxp.Platform.{Platform}
use trusty_lk_nxp.Machine.{sent, closed, freed, Cmd, pure, ◌>>=◌, ◌>>◌, State, HwrngChanCtx, Call}
use trusty_lk_nxp.Machine.Outcome.{Ensures, of_Returned}
use trusty_lk_nxp.Caam.Frame.{kept}
use trusty_lk_nxp.Caam.Fill.{FromDevice}
use trusty_lk_nxp.Caam.Rng.{sub_size}
use trusty_lk_nxp.Tipc.{tipc_send_single_buf}
use trusty_lk_nxp.Hwrng.Server.{max_hwrng_msg_size, set_hwrng_ctx, after_reply, hwrng_close_chan}

pub piece_min : (n : ℕ) → (if ltb 4096 n then 4096 else n) ≡ min 4096 n
piece_min n = ground arith

module _ ⦃p : Platform⦄ where
  open p use {
    World, dma_byte, rng_data, list_in_list, list_delete, Links, err_not_enough_buffer, send_msg,
    close,
  }

  -- a byte that the device has left in memory
  abbrev pub IsDeviceByte : ℕ → Type 0
  IsDeviceByte b = (w : World) × (i : ℕ) × (b ≡ dma_byte w i)

  pub load_bytes-IsDeviceByte :
      (a n : ℕ) (m : Memory) → FromDevice a n m → All IsDeviceByte (load_bytes a n m)
  unfolding load_bytes
  load_bytes-IsDeviceByte a zero m h = tt
  load_bytes-IsDeviceByte a (suc n) m h =
      let (w, e) = h a (omega arith) (omega arith) in
      ((w, a, e), load_bytes-IsDeviceByte (a + 1) n m (λ i lo hi. h i (omega arith) (omega arith)))

  -- the queue without `a`, if it was in there
  abbrev pub without : ℕ → Links → Links
  without a l = if list_in_list a l then list_delete a l else l

  -- what is left of a request after a reply
  abbrev pub left_over : HwrngChanCtx → ℕ
  left_over ctx = ctx.req_size - min max_hwrng_msg_size ctx.req_size

  -- `msg` was sent in the world `w`, with a result that `Result` holds of; the calls `later` followed, and
  -- `after` is what they did to the world
  abbrev pub SentWith :
      (Result : ℤ → Type 0)
      → HwrngChanCtx
      → (msg : List ℕ) → (later : List Call) → (after : World → World) → State
      → Type 0
  SentWith Result ctx msg later after t =
      (cs : List Call) × (w : World) × (t.calls ≡ later ++ sent ctx.chan msg ∷ cs)
      × (t.world ≡ after (send_msg ctx.chan msg w).1)
      × Result (send_msg ctx.chan msg w).0

  abbrev Succeeds : ℤ → Type 0
  Succeeds rc = is_negative rc ≡ false

  abbrev HasNoRoom : ℤ → Type 0
  HasNoRoom rc = (is_negative rc ≡ true) × (int_eq rc err_not_enough_buffer ≡ true)

  abbrev FailsElse : ℤ → Type 0
  FailsElse rc = (is_negative rc ≡ true) × (int_eq rc err_not_enough_buffer ≡ false)

  -- What becomes of a request, by the result of the send: it is served, in part or to its end; it waits
  -- for room; or its channel is closed and its context freed.
  pub data Fate (a : ℕ) (ctx : HwrngChanCtx) (msg : List ℕ) (more : Bool) (s : State) (more' : Bool)
      (t : State) : Type 0 where
    served_in_part :
        0 < left_over ctx
        → more' ≡ true
        → t.hwrng_ctxs a ≡ some (record ctx { req_size = left_over ctx })
        → t.hwrng_req_list ≡ s.hwrng_req_list
        → SentWith Succeeds ctx msg [] (λ w. w) t
        → Fate a ctx msg more s more' t
    served :
        left_over ctx ≡ 0
        → more' ≡ more
        → t.hwrng_ctxs a ≡ some (record ctx { req_size = 0 })
        → t.hwrng_req_list ≡ list_delete a s.hwrng_req_list
        → SentWith Succeeds ctx msg [] (λ w. w) t
        → Fate a ctx msg more s more' t
    blocked :
        more' ≡ more
        → t.hwrng_ctxs a ≡ some (record ctx { send_blocked = true })
        → t.hwrng_req_list ≡ s.hwrng_req_list
        → SentWith HasNoRoom ctx msg [] (λ w. w) t
        → Fate a ctx msg more s more' t
    dropped :
        more' ≡ more
        → t.hwrng_ctxs a ≡ none
        → t.hwrng_req_list ≡ without a s.hwrng_req_list
        → SentWith FailsElse ctx msg (freed a ∷ closed ctx.chan ∷ []) (close ctx.chan) t
        → Fate a ctx msg more s more' t

  -- no other client's context is touched
  abbrev pub OthersKept : ℕ → State → State → Type 0
  OthersKept a s t = (b : ℕ) → b ≢ a → t.hwrng_ctxs b ≡ s.hwrng_ctxs b

  abbrev pub Served : (a : ℕ) → HwrngChanCtx → Bool → State → Bool → State → Type 0
  Served a ctx more s more' t =
      OthersKept a s t
      × ((msg : List ℕ) × (length msg ≡ min max_hwrng_msg_size ctx.req_size)
          × All IsDeviceByte msg
          × Fate a ctx msg more s more' t)

  -- the part of the loop's body that follows the call for random bytes
  abbrev pub reply : (a : ℕ) → HwrngChanCtx → (len : ℕ) → Bool → Cmd Bool
  reply a ctx len more = tipc_send_single_buf ctx.chan rng_data len >>= λ rc.
      if not (is_negative rc)
      then after_reply a ctx len more
      else if int_eq rc err_not_enough_buffer
      then (set_hwrng_ctx a (some (record ctx { send_blocked = true })) >> pure more)
      else (hwrng_close_chan a >> pure more)

  abbrev pub message : (len : ℕ) → State → List ℕ
  message len u = load_bytes rng_data len u.mem

  -- how the reply ends, on each of its branches
  pub reply-Fate :
      {strict : Bool} (a : ℕ) (ctx : HwrngChanCtx) (more : Bool) (s u : State)
      → s.hwrng_ctxs a ≡ some ctx
      → kept u ≡ kept s
      → ctx.req_size < 2 ^ 32
      → Ensures strict
          (λ more' t.
            OthersKept a s t × Fate a ctx (message (min 4096 ctx.req_size) u) more s more' t)
          (reply a ctx (min 4096 ctx.req_size) more u)
  unfolding tipc_send_single_buf after_reply hwrng_close_chan
  reply-Fate a ctx more s u live k small =
      elim (Bool-cases (is_negative (send_msg ctx.chan msg u.world).0)) [
        | inr fine ↦
            rw fine (elim (Bool-cases (sub_size ctx.req_size (min 4096 ctx.req_size) == 0)) [
              | inl done ↦ rw done (
                  of_Returned _ _ (
                    others _,
                    served (omega (arith, left, zero done)) refl
                        (if_same a _ _ ∙ ap (λ n. some (record ctx { req_size = n })) (zero done))
                        (ap (list_delete a) list) (_, u.world, refl, refl, fine),
                  ))
              | inr part ↦ rw part (
                  of_Returned _ _ (
                    others _,
                    served_in_part (omega (arith, left, some_left part)) refl
                        (if_same a _ _ ∙ ap (λ n. some (record ctx { req_size = n })) left) list
                        (_, u.world, refl, refl, fine),
                  ))
            ])
        | inl bad ↦
            rw bad
              (elim (Bool-cases (int_eq (send_msg ctx.chan msg u.world).0 err_not_enough_buffer)) [
                | inl full ↦ rw full (
                    of_Returned _ _ (
                      others _,
                      blocked refl (if_same a _ _) list (_, u.world, refl, refl, (bad, full)),
                    ))
                | inr lost ↦
                    rw (lost, ap (λ f. f a) ctxs ∙ live)
                      (elim (Bool-cases (list_in_list a u.hwrng_req_list)) [
                        | inl queued ↦ rw queued (
                            of_Returned _ _ (
                              others _,
                              dropped refl (if_same a _ _) (without_in queued ∙ ap (without a) list)
                                  (_, u.world, refl, refl, (bad, lost)),
                            ))
                        | inr idle ↦ rw idle (
                            of_Returned _ _ (
                              others _,
                              dropped refl (if_same a _ _) (without_out idle ∙ ap (without a) list)
                                  (_, u.world, refl, refl, (bad, lost)),
                            ))
                      ])
              ])
      ]
    where
      msg : List ℕ
      msg = message (min 4096 ctx.req_size) u

      ctxs : u.hwrng_ctxs ≡ s.hwrng_ctxs
      ctxs = ap (λ k. k.hwrng_ctxs) k

      list : u.hwrng_req_list ≡ s.hwrng_req_list
      list = ap (λ k. k.hwrng_req_list) k

      others :
          (c : Option HwrngChanCtx) (b : ℕ)
          → b ≢ a
          → (if b == a then c else u.hwrng_ctxs b) ≡ s.hwrng_ctxs b
      others c b h = if_other a b _ _ h ∙ ap (λ f. f b) ctxs

      left : sub_size ctx.req_size (min 4096 ctx.req_size) ≡ left_over ctx
      left = omega arith

      zero :
          (sub_size ctx.req_size (min 4096 ctx.req_size) == 0) ≡ true
          → sub_size ctx.req_size (min 4096 ctx.req_size) ≡ 0
      zero h = ground arith

      some_left :
          (sub_size ctx.req_size (min 4096 ctx.req_size) == 0) ≡ false
          → 0 < sub_size ctx.req_size (min 4096 ctx.req_size)
      some_left h = ground arith

      without_in :
          list_in_list a u.hwrng_req_list ≡ true
          → list_delete a u.hwrng_req_list ≡ without a u.hwrng_req_list
      without_in h = rw h refl

      without_out :
          list_in_list a u.hwrng_req_list ≡ false → u.hwrng_req_list ≡ without a u.hwrng_req_list
      without_out h = rw h refl
