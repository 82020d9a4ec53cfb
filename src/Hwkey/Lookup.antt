-- ===== src/Hwkey/Lookup.antt =====
-- The search of the key slots (_handle_slots of app/hwcrypto/hwkey_srv.c).
use trusty_lk_nxp.Common.{
  ℕ, ◌≡◌, refl, ap, ◌∙◌, ◌⊎◌, inl, inr, Bool, true, false, ◌&&◌, Option, none, some, List, [], ◌∷◌,
  arith, Bool-cases, Option-cases, eq_of_bytes_eq, Any, ◌==◌, if◌then◌else◌, bytes_eq, length,
}
use trusty_lk_nxp.Common.Int.{ℤ}
use trusty_lk_nxp.Platform.{Platform, HwkeyMsg, Uuid}
use trusty_lk_nxp.Machine.{
  HwkeyKeyslot, HwkeyChanCtx, SlotHandler, State, Run, ok, aborted, fault, hang, and_then, Cmd,
  ◌>>=◌, ◌>>◌, pure,
}
use trusty_lk_nxp.Hwkey.Slots.{call_handler, handle_slots_loop, handle_slots, test_key_slots}
use trusty_lk_nxp.Hwkey.Server.{
  find_key, hwkey_handle_get_keyslot_cmd, hwkey_send_rsp, sanitize_key_data,
}

-- the slot is for this key and this client
abbrev pub is_for : Uuid → (slot_id : List ℕ) → HwkeyKeyslot → Bool
is_for uuid slot_id slot = bytes_eq slot.key_id slot_id && bytes_eq uuid slot.uuid

-- the handler of the first slot that is for this key and this client and that has one
unfoldable pub granted : Uuid → (slot_id : List ℕ) → List HwkeyKeyslot → Option SlotHandler
granted uuid slot_id [] = none
granted uuid slot_id (slot ∷ slots) =
    let rest = granted uuid slot_id slots in
    if is_for uuid slot_id slot then elim slot.handler [ none ↦ rest | some h ↦ some h ] else rest

abbrev pub installed : Option (List HwkeyKeyslot) → List HwkeyKeyslot
installed none = []
installed (some slots) = slots

and-left : (a b : Bool) → (a && b) ≡ true → a ≡ true
and-left true b h = refl
and-left false b h = h

pub and-right : (a b : Bool) → (a && b) ≡ true → b ≡ true
and-right true b h = h
and-right false b h = cc

-- both branches of a test end alike
of_branches :
    {S A : Type 0} (b : Bool) (x y : S → Run S A) (s : S) (r : Run S A)
    → (b ≡ true → x s ≡ r)
    → (b ≡ false → y s ≡ r)
    → (if b then x else y) s ≡ r
of_branches true x y s r h h' = h refl
of_branches false x y s r h h' = h' refl

and_then-ok : {S A : Type 0} (r : Run S A) → and_then r (λ a s. ok a s) ≡ r
and_then-ok (ok a s) = refl
and_then-ok (aborted s) = refl
and_then-ok (fault s) = refl
and_then-ok (hang s) = refl

==_refl : (n : ℕ) → (n == n) ≡ true
==_refl n = ground arith

module _ ⦃p : Platform⦄ where
  open p use {with_hwcrypto_unittest, hwkey_err_not_found, key_data}

  -- the call of a handler that was found, or the answer that there is none
  abbrev pub answer : Option SlotHandler → (kbuf kbuf_len klen : ℕ) → Cmd (ℕ × ℕ)
  answer none kbuf kbuf_len klen = pure (hwkey_err_not_found, klen)
  answer (some h) kbuf kbuf_len klen = call_handler h kbuf kbuf_len klen

  handle_slots_loop-granted :
      (ctx : HwkeyChanCtx) (slot_id : List ℕ) (slots : List HwkeyKeyslot) (kbuf kbuf_len klen : ℕ)
      (s : State)
      → handle_slots_loop ctx slot_id (length slots) slots kbuf kbuf_len klen s
        ≡ answer (granted ctx.uuid slot_id slots) kbuf kbuf_len klen s
  unfolding handle_slots_loop granted
  handle_slots_loop-granted ctx slot_id [] kbuf kbuf_len klen s = refl
  handle_slots_loop-granted ctx slot_id (slot ∷ slots) kbuf kbuf_len klen s =
      let ih = handle_slots_loop-granted ctx slot_id slots kbuf kbuf_len klen s in
      elim (Bool-cases (bytes_eq slot.key_id slot_id)) [
        | inr other ↦ rw other ih
        | inl key ↦ rw key (elim (Bool-cases (bytes_eq ctx.uuid slot.uuid)) [
          | inr other ↦ rw other ih
          | inl mine ↦ rw mine (elim (Option-cases slot.handler) [
            | inl missing ↦ rw missing ih
            | inr (h, e) ↦ rw e refl
          ])
        ])
      ]

  -- The slots that are installed are as many as are counted.
  abbrev pub SlotsCounted : State → Type 0
  SlotsCounted s = s.key_slot_cnt ≡ length (installed s.key_slots)

  -- The search of all the slots of a list, or of none when no list is installed, calls the handler
  -- of the first slot of this key and this client that has a handler, and no other; without one it
  -- answers that there is no key. It never reads behind the slots.
  pub handle_slots-granted :
      (ctx : HwkeyChanCtx) (slot_id : List ℕ) (slots : Option (List HwkeyKeyslot))
      (kbuf kbuf_len klen : ℕ) (s : State)
      → handle_slots ctx slot_id slots (length (installed slots)) kbuf kbuf_len klen s
        ≡ answer (granted ctx.uuid slot_id (installed slots)) kbuf kbuf_len klen s
  unfolding handle_slots granted
  handle_slots-granted ctx slot_id none kbuf kbuf_len klen s = refl
  handle_slots-granted ctx slot_id (some slots) kbuf kbuf_len klen s =
      handle_slots_loop-granted ctx slot_id slots kbuf kbuf_len klen s

  -- Where the installed slots are as many as are counted, a client that no installed slot is for,
  -- and no test slot in a build that has them, is told that there is no key. The answer carries no
  -- byte, no handler runs, and nothing of the state changes but by that one message.
  pub hwkey_handle_get_keyslot_cmd-denied :
      (ctx : HwkeyChanCtx) (hdr : HwkeyMsg) (slot_id : List ℕ) (s : State)
      → SlotsCounted s
      → granted ctx.uuid slot_id (installed s.key_slots) ≡ none
      → (with_hwcrypto_unittest ≡ false) ⊎ (granted ctx.uuid slot_id test_key_slots ≡ none)
      → hwkey_handle_get_keyslot_cmd ctx hdr slot_id s
        ≡ hwkey_send_rsp ctx (record hdr { status = hwkey_err_not_found }) key_data 0 s
  unfolding hwkey_handle_get_keyslot_cmd find_key
  hwkey_handle_get_keyslot_cmd-denied ctx hdr slot_id s counted none_here none_there = rw (here) (
      ap (λ r. and_then r reply)
        (of_branches (with_hwcrypto_unittest && (hwkey_err_not_found == hwkey_err_not_found)) _ _ s
          (ok (hwkey_err_not_found, 0) s) (λ on. there (and-left _ _ on) none_there) (λ off. refl))
      ∙ and_then-ok _)
    where
      -- what follows the search
      reply : ℕ × ℕ → Cmd ℤ
      reply (status, klen) =
          hwkey_send_rsp ctx (record hdr { status = status }) key_data klen >>= λ rc.
          sanitize_key_data klen >> pure rc

      here :
          handle_slots ctx slot_id s.key_slots s.key_slot_cnt key_data 2048 0 s
          ≡ ok (hwkey_err_not_found, 0) s
      here =
          ap (λ n. handle_slots ctx slot_id s.key_slots n key_data 2048 0 s) counted
          ∙ handle_slots-granted ctx slot_id s.key_slots key_data 2048 0 s
          ∙ ap (λ o. answer o key_data 2048 0 s) none_here

      there :
          with_hwcrypto_unittest ≡ true
          → (with_hwcrypto_unittest ≡ false) ⊎ (granted ctx.uuid slot_id test_key_slots ≡ none)
          → handle_slots ctx slot_id (some test_key_slots) 1 key_data 2048 0 s
            ≡ ok (hwkey_err_not_found, 0) s
      there on (inl off) = cc
      there on (inr h) =
          rw (handle_slots-granted ctx slot_id (some test_key_slots) key_data 2048 0 s, h) refl

granted_step :
    (b : Bool) (o rest : Option SlotHandler) (h : SlotHandler)
    → (if b then elim o [ none ↦ rest | some k ↦ some k ] else rest) ≡ some h
    → ((b ≡ true) × (o ≡ some h)) ⊎ (rest ≡ some h)
granted_step false o rest h e = inr e
granted_step true none rest h e = inr e
granted_step true (some k) rest h e = inl (refl, e)

-- A handler runs for a client only if a slot names that client and that key, byte for byte.
pub granted_sound :
    (uuid : Uuid) (slot_id : List ℕ) (slots : List HwkeyKeyslot) (h : SlotHandler)
    → granted uuid slot_id slots ≡ some h
    → Any (λ slot. (slot.key_id ≡ slot_id) × (uuid ≡ slot.uuid) × (slot.handler ≡ some h)) slots
unfolding granted
granted_sound uuid slot_id [] h e = cc
granted_sound uuid slot_id (slot ∷ slots) h e =
    elim (granted_step (is_for uuid slot_id slot) slot.handler (granted uuid slot_id slots) h e) [
      | inr later ↦ inr (granted_sound uuid slot_id slots h later)
      | inl (match, found) ↦ inl (
        eq_of_bytes_eq slot.key_id slot_id (and-left _ _ match),
        eq_of_bytes_eq uuid slot.uuid (and-right _ _ match),
        found,
      )
    ]
