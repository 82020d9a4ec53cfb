-- ===== src/Tipc/Whole.antt =====
-- Receiving a message of exactly one length (tipc_recv_single_buf of app/hwcrypto/main.c), on every branch.
use trusty_lk_nxp.Common.{
  List, ℕ, ◌≡◌, ◌≢◌, refl, ap, ◌∙◌, ◌⊎◌, inl, inr, Bool, true, false, arith, Bool-cases, ◌==◌,
}
use trusty_lk_nxp.Common.Int.{ℤ, pos, is_negative}
use trusty_lk_nxp.Platform.{Platform}
use trusty_lk_nxp.Machine.{State}
use trusty_lk_nxp.Machine.Outcome.{Ensures, of_Returned}
use trusty_lk_nxp.Caam.Frame.{kept}
use trusty_lk_nxp.Tipc.{tipc_recv_single_buf}
use trusty_lk_nxp.Tipc.Receive.{IpcLaws, PutBack, negative_not_zero}

module _ ⦃p : Platform⦄ where
  open p use {get_msg, read_msg, err_bad_len_negative}

  module _ (chan : ℤ) (len : ℕ) (s : State) where
    -- what reading the pending message of the channel gives
    abbrev pub reading : ℤ × List ℕ
    reading = let ((rc, inf), w) = get_msg chan s.world in (read_msg chan inf.id 0 len w).0

    -- There is a message of exactly this length, and it can be read.
    abbrev pub HasMessage : Type 0
    HasMessage =
        ((get_msg chan s.world).0.0 ≡ pos 0)
        × ((get_msg chan s.world).0.1.len ≡ len)
        × (is_negative reading.0 ≡ false)

    -- There is no message, it has another length, or it cannot be read.
    abbrev pub NoMessage : Type 0
    NoMessage =
        (is_negative (get_msg chan s.world).0.0 ≡ true)
        ⊎ ((get_msg chan s.world).0.1.len ≢ len)
        ⊎ (is_negative reading.0 ≡ true)

    -- A receipt that changes nothing of the server, and gives the message or an error.
    abbrev pub Receipt : ℤ × List ℕ → State → Type 0
    Receipt (rc, msg) t =
        (kept t ≡ kept s)
        × PutBack chan s t
        × (((rc ≡ pos len) × HasMessage × (msg ≡ reading.1))
            ⊎ ((is_negative rc ≡ true) × NoMessage))

    read_whole :
        (ipc : IpcLaws)
        → (get_msg chan s.world).0.0 ≡ pos 0
        → (get_msg chan s.world).0.1.len ≡ len
        → ((reading.0 ≡ pos len) ⊎ (is_negative reading.0 ≡ true))
    read_whole ipc got fits = elim (ipc.read_count chan len s.world got) [
      | inl count ↦ inl (count ∙ ap pos (omega (arith, fits)))
      | inr bad ↦ inr bad
    ]

    pub tipc_recv_single_buf-Receipt :
        {strict : Bool} (ipc : IpcLaws) → Ensures strict Receipt (tipc_recv_single_buf chan len s)
    unfolding tipc_recv_single_buf
    tipc_recv_single_buf-Receipt ipc = elim (ipc.get_result chan s.world) [
      | inr bad ↦
          rw (negative_not_zero _ bad) (of_Returned _ _ (refl, inl (bad, refl), inr (bad, inl bad)))
      | inl got ↦ rw got (elim (Bool-cases ((get_msg chan s.world).0.1.len == len)) [
        | inr other ↦ rw other (
            of_Returned _ _
              (refl, inr (got, refl), inr (err_bad_len_negative, inr (inl λ e. ground arith))))
        | inl fits ↦ rw fits (elim (read_whole ipc got (ground arith)) [
          | inl whole ↦
              of_Returned _ _ (
                refl,
                inr (got, refl),
                inl (whole, (got, ground arith, ap is_negative whole), refl),
              )
          | inr bad ↦ of_Returned _ _ (refl, inr (got, refl), inr (bad, inr (inr bad)))
        ])
      ])
    ]
