-- ===== src/Machine/Sent.antt =====
-- The messages that were sent to the clients, by the record of the calls.
use trusty_lk_nxp.Common.{ℕ, ◌+◌, ◌≡◌, ◌∙◌, List, [], ◌∷◌, length, if◌then◌else◌}
use trusty_lk_nxp.Common.Int.{ℤ, int_eq}
use trusty_lk_nxp.Platform.{Platform}
use trusty_lk_nxp.Machine.{Call, sent, wrote, prepared, finished, put, closed, freed, logged, State}

-- the messages with their channels, the latest first
abbrev pub messages : List Call → List (ℤ × List ℕ)
messages [] = []
messages (sent chan msg ∷ cs) = (chan, msg) ∷ messages cs
messages (wrote v a ∷ cs) = messages cs
messages (prepared a n f content ∷ cs) = messages cs
messages (finished a n f ∷ cs) = messages cs
messages (put c i ∷ cs) = messages cs
messages (closed c ∷ cs) = messages cs
messages (freed a ∷ cs) = messages cs
messages (logged line ∷ cs) = messages cs

-- how many bytes went over a channel
abbrev pub bytes_sent : ℤ → List (ℤ × List ℕ) → ℕ
bytes_sent chan [] = 0
bytes_sent chan ((c, msg) ∷ ms) = (if int_eq c chan then length msg else 0) + bytes_sent chan ms

module _ ⦃p : Platform⦄ where
  -- nothing was sent to anyone in between
  abbrev pub IsSilent : State → State → Type 0
  IsSilent s t = messages t.calls ≡ messages s.calls

  pub IsSilent-trans : (s t u : State) → IsSilent s t → IsSilent t u → IsSilent s u
  IsSilent-trans s t u h h' = h' ∙ h
