-- ===== src/Tipc/Receive.antt =====
-- Receiving a message (tipc_recv_single_buf and tipc_recv_two_segments of app/hwcrypto/main.c).
use trusty_lk_nxp.Common.{
  List, ℕ, ◌+◌, ◌≤◌, min, ◌≡◌, refl, ◌⊎◌, inl, inr, Bool, true, false, ◌∷◌, arith, Bool-cases, ltb,
  length, length-drop, drop,
}
use trusty_lk_nxp.Common.Int.{ℤ, pos, negsuc, is_negative, int_eq}
use trusty_lk_nxp.Common.Memory.{store_bytes_outside}
use trusty_lk_nxp.Platform.{Platform}
use trusty_lk_nxp.Machine.{put, State}
use trusty_lk_nxp.Machine.Outcome.{Ensures, of_Returned}
use trusty_lk_nxp.Caam.Frame.{Frame, Frame-refl}
use trusty_lk_nxp.Tipc.{tipc_recv_two_segments}

module _ ⦃p : Platform⦄ where
  open p use {World, get_msg, read_msg, err_bad_len_negative}

  -- The documented results of the calls: `get_msg` gives 0 or an error; `read_msg` writes no more than
  -- it is given room for, and of the message that `get_msg` has just described it reads, from its
  -- start, as many bytes as there are and as there is room for, or gives an error.
  pub record IpcLaws : Type 0 where
    pub get_result :
        (c : ℤ) (w : World) → ((get_msg c w).0.0 ≡ pos 0) ⊎ (is_negative (get_msg c w).0.0 ≡ true)
    pub read_fits : (c : ℤ) (i o n : ℕ) (w : World) → length (read_msg c i o n w).0.1 ≤ n
    pub read_count :
        (c : ℤ) (n : ℕ) (w : World)
        → (get_msg c w).0.0 ≡ pos 0
        → let ((rc, inf), w') = get_msg c w in
          ((read_msg c inf.id 0 n w').0.0 ≡ pos (min inf.len n))
          ⊎ (is_negative (read_msg c inf.id 0 n w').0.0 ≡ true)

  -- A count of received bytes that lies in a range, or an error.
  abbrev pub CountWithin : (lo hi : ℕ) → ℤ → Type 0
  CountWithin lo hi (pos k) = (lo ≤ k) × (k ≤ hi)
  CountWithin lo hi (negsuc k) = Unit

  -- The message that was got is put back, once.
  abbrev pub PutBack : ℤ → State → State → Type 0
  PutBack chan s t =
      let ((rc, inf), w) = get_msg chan s.world in
      ((is_negative rc ≡ true) × (t.calls ≡ s.calls))
      ⊎ ((rc ≡ pos 0) × (t.calls ≡ put chan inf.id ∷ s.calls))

  negative-CountWithin : (lo hi : ℕ) (rc : ℤ) → is_negative rc ≡ true → CountWithin lo hi rc
  negative-CountWithin lo hi (pos n) h = cc
  negative-CountWithin lo hi (negsuc n) h = tt

  pub negative_not_zero : (rc : ℤ) → is_negative rc ≡ true → int_eq rc (pos 0) ≡ false
  negative_not_zero (pos n) h = cc
  negative_not_zero (negsuc n) h = refl

  read-CountWithin :
      (lo n len : ℕ) (rc : ℤ)
      → lo ≤ len
      → lo ≤ n
      → (rc ≡ pos (min len n)) ⊎ (is_negative rc ≡ true)
      → CountWithin lo n rc
  read-CountWithin lo n len rc h h' (inl e) = rw e (omega arith, omega arith)
  read-CountWithin lo n len rc h h' (inr e) = negative-CountWithin lo n rc e

  -- what the receipt of a message in two parts does
  abbrev pub Received :
      (chan : ℤ) (hdr_len payload payload_len : ℕ) → State → ℤ × List ℕ → State → Type 0
  Received chan hdr_len payload payload_len s (rc, hdr) t =
      Frame payload payload_len s t
      × CountWithin hdr_len (hdr_len + payload_len) rc
      × PutBack chan s t

  module _ (ipc : IpcLaws) {strict : Bool} where
    -- Where the IPC calls keep their laws, receiving a header and a payload returns. The result is
    -- an error, or the number of bytes read: at least the header, and at most the header and the
    -- room for the payload. Only the payload's buffer changes, and a message that was got is put
    -- back once.
    pub tipc_recv_two_segments-Ensures :
        (chan : ℤ) (hdr_len payload payload_len : ℕ) (s : State)
        → Ensures strict
            (Received chan hdr_len payload payload_len s)
            (tipc_recv_two_segments chan hdr_len payload payload_len s)
    unfolding tipc_recv_two_segments
    tipc_recv_two_segments-Ensures chan hdr_len payload payload_len s =
        elim (ipc.get_result chan s.world) [
          | inr bad ↦
              rw (negative_not_zero _ bad) (
                of_Returned _ _ (Frame-refl _ _ s, negative-CountWithin _ _ _ bad, inl (bad, refl)))
          | inl got ↦ rw got (elim (Bool-cases (ltb (get_msg chan s.world).0.1.len hdr_len)) [
            | inl short ↦ rw short (
                of_Returned _ _ (
                  Frame-refl _ _ s,
                  negative-CountWithin _ _ _ err_bad_len_negative,
                  inr (got, refl),
                ))
            | inr enough ↦ rw enough (
                of_Returned _ _ (
                  (
                    λ i out.
                        store_bytes_outside payload
                          (drop hdr_len
                            (read_msg chan (get_msg chan s.world).0.1.id 0 (hdr_len + payload_len)
                              (get_msg chan s.world).1).0.1)
                          s.mem i
                          (grind (
                            arith,
                            length-drop,
                            ipc.read_fits chan (get_msg chan s.world).0.1.id 0
                                (hdr_len + payload_len) (get_msg chan s.world).1,
                          )),
                    refl,
                  ),
                  read-CountWithin hdr_len (hdr_len + payload_len) (get_msg chan s.world).0.1.len _
                      (ground arith) (omega arith)
                      (ipc.read_count chan (hdr_len + payload_len) s.world got),
                  inr (got, refl),
                ))
          ])
        ]
