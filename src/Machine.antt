-- ===== src/Machine.antt =====
-- The state that the program's functions share, and the monad in which they are written: its static
-- variables, its buffers by address, the allocated contexts, the outside world, and the calls made
-- to the outside so far. A function ends with a result, by assert or abort, by the use of a freed
-- context, or by a wait that does not end within the rounds that the platform names.
pub mod Outcome
pub mod Sent
use trusty_lk_nxp.Common.{ℕ, Bool, Option, none, some, List, ◌∷◌, if◌then◌else◌}
use trusty_lk_nxp.Common.Int.{ℤ}
use trusty_lk_nxp.Common.Memory.{Memory}
use trusty_lk_nxp.Platform.{Platform, Uuid, TipcEventHandler}

-- an effect on the outside; reads of registers and of messages are not recorded, and of the log only
-- what the self tests report
pub data Call : Type 0 where
  wrote : (value address : ℕ) → Call
  prepared : (address size flags : ℕ) → List ℕ → Call
  finished : (address size flags : ℕ) → Call
  sent : ℤ → List ℕ → Call
  put : ℤ → ℕ → Call
  closed : ℤ → Call
  freed : ℕ → Call
  logged : List ℕ → Call

-- struct caam_job_rings
pub record CaamJobRings : Type 0 where
  pub in0 : ℕ
  pub out0 : ℕ
  pub out1 : ℕ

-- struct caam_job
pub record CaamJob : Type 0 where
  pub dsc : List ℕ
  pub dsc_used : ℕ
  pub status : ℕ

-- the static variables of caam.c, with what `g_rings` and `g_job` point to
pub record Caam : Type 0 where
  pub caam_base : ℕ
  pub ccm_base : ℕ
  pub sram_base : ℕ
  pub g_rings : ℕ
  pub rings : CaamJobRings
  pub g_job : ℕ
  pub job : CaamJob

-- struct hwrng_chan_ctx, less its list node
pub record HwrngChanCtx : Type 0 where
  pub evt_handler : TipcEventHandler
  pub chan : ℤ
  pub req_size : ℕ
  pub send_blocked : Bool

-- struct hwkey_chan_ctx
pub record HwkeyChanCtx : Type 0 where
  pub evt_handler : TipcEventHandler
  pub chan : ℤ
  pub uuid : Uuid

-- the functions that a key slot may name as its handler
pub data SlotHandler : Type 0 where
  get_rpmb_ss_auth_key_handler get_unittest_key32_handler : SlotHandler

-- struct hwkey_keyslot; `none` is a NULL handler
pub record HwkeyKeyslot : Type 0 where
  pub key_id : List ℕ
  pub uuid : Uuid
  pub handler : Option SlotHandler

module _ ⦃p : Platform⦄ where
  open p use {World, Links}

  pub record State : Type 0 where
    pub world : World
    pub calls : List Call  -- the latest first
    pub mem : Memory
    pub caam : Caam
    pub hwrng_ctxs : ℕ → Option HwrngChanCtx
    pub hwrng_req_list : Links
    pub hwrng_port : ℤ
    pub hwkey_ctxs : ℕ → Option HwkeyChanCtx
    pub key_slots : Option (List HwkeyKeyslot)
    pub key_slot_cnt : ℕ
    pub rpmb_keyblob_len : ℕ

pub data Run (S A : Type 0) : Type 0 where
  ok : A → S → Run S A
  aborted : S → Run S A
  fault : S → Run S A
  hang : S → Run S A

abbrev pub and_then : {S A B : Type 0} → Run S A → (A → S → Run S B) → Run S B
and_then (ok a s) k = k a s
and_then (aborted s) k = aborted s
and_then (fault s) k = fault s
and_then (hang s) k = hang s

module _ ⦃p : Platform⦄ where
  open p use {World}

  abbrev pub Cmd : Type 0 → Type 0
  Cmd A = State → Run State A

  abbrev pub pure : {A : Type 0} → A → Cmd A
  pure = ok

  infixl 5 ◌>>=◌ ◌>>◌
  abbrev pub ◌>>=◌ : {A B : Type 0} → Cmd A → (A → Cmd B) → Cmd B
  ◌>>=◌ m k s = and_then (m s) k

  abbrev pub ◌>>◌ : {B : Type 0} → Cmd (Unit {0}) → Cmd B → Cmd B
  m >> n = m >>= λ _. n

  abbrev pub skip : Cmd (Unit {0})
  skip s = ok tt s

  abbrev pub assert : Bool → Cmd (Unit {0})
  assert b s = if b then ok tt s else aborted s

  abbrev pub abort : {A : Type 0} → Cmd A
  abort s = aborted s

  -- the use of an object that is not allocated
  abbrev pub dereference : {A : Type 0} → Option A → Cmd A
  dereference none s = fault s
  dereference (some a) s = ok a s

  abbrev pub get : Cmd State
  get s = ok s s

  abbrev pub modify : (State → State) → Cmd (Unit {0})
  modify f s = ok tt (f s)

  -- an outside call that answers, and one that is recorded
  abbrev pub ask : {A : Type 0} → (World → A × World) → Cmd A
  ask f s = let (a, w) = f s.world in ok a (record s { world = w })

  abbrev pub tell : Call → (World → World) → Cmd (Unit {0})
  tell c f s = ok tt (record s { world = f s.world; calls = c ∷ s.calls })

  abbrev pub ask_tell : {A : Type 0} → Call → (World → A × World) → Cmd A
  ask_tell c f s = let (a, w) = f s.world in ok a (record s { world = w; calls = c ∷ s.calls })
