-- ===== src/Dap/Registry/Pending.antt =====
-- The entries of the response registry of dap.go and their channels.
use mcp_dap_server_k8s_forwa.Prelude.{
  ℕ, ◌≤◌, ◌<◌, ◌≡◌, ◌≢◌, List, [], ◌∷◌, Option, none, some, ◌==◌, arith, Bool-cases, inl, inr,
}
use mcp_dap_server_k8s_forwa.Dap.Message.{Message}
use mcp_dap_server_k8s_forwa.Dap.Registry.{Chan, Registry, open_chan, update, find, delete}

-- Addresses fall along the map and stay below the next free one.
abbrev pub Pending : (ℕ → Chan) → ℕ → List (ℕ × ℕ) → Type 0
Pending cell n [] = Unit
Pending cell n ((s, i) ∷ m) = (i < n) × (cell i ≡ open_chan) × Pending cell i m

abbrev pub Apart : ℕ → List (ℕ × ℕ) → Type 0
Apart k [] = Unit
Apart k ((s, i) ∷ m) = (i ≢ k) × Apart k m

abbrev pub IsFree : Registry → Option (ℕ × Message) → Type 0
IsFree r none = Unit
IsFree r (some (i, m)) = (i < r.next) × (r.cell i ≡ open_chan) × Apart i r.responses

pub Apart-delete : (s k : ℕ) (m : List (ℕ × ℕ)) → Apart k m → Apart k (delete s m)
unfolding delete
Apart-delete s k [] h = tt
Apart-delete s k ((t, i) ∷ m) h = let rest = Apart-delete s k m h.1 in ground (arith, rest)

module _ (cell : ℕ → Chan) where
  pub Pending-mono : (n k : ℕ) (m : List (ℕ × ℕ)) → n ≤ k → Pending cell n m → Pending cell k m
  Pending-mono n k [] h p = tt
  Pending-mono n k ((s, i) ∷ m) h p = (omega arith, p.1, p.2)

  pub Pending-delete : (s n : ℕ) (m : List (ℕ × ℕ)) → Pending cell n m → Pending cell n (delete s m)
  unfolding delete
  Pending-delete s n [] p = tt
  Pending-delete s n ((t, i) ∷ m) p =
      let rest = Pending-delete s i m p.2 in ground (arith, rest, Pending-mono i n (delete s m))

  -- A write above all addresses, or away from them, changes no pending channel.
  pub Pending-update_above :
      (n k : ℕ) (c : Chan) (m : List (ℕ × ℕ))
      → n ≤ k
      → Pending cell n m
      → Pending (update cell k c) n m
  Pending-update_above n k c [] h p = tt
  Pending-update_above n k c ((s, i) ∷ m) h p =
      (p.0, ground arith, Pending-update_above i k c m (omega arith) p.2)

  pub Pending-update-Apart :
      (n k : ℕ) (c : Chan) (m : List (ℕ × ℕ))
      → Apart k m
      → Pending cell n m
      → Pending (update cell k c) n m
  Pending-update-Apart n k c [] h p = tt
  Pending-update-Apart n k c ((s, i) ∷ m) h p =
      (p.0, ground arith, Pending-update-Apart i k c m h.1 p.2)

  pub Apart-above : (n k : ℕ) (m : List (ℕ × ℕ)) → n ≤ k → Pending cell n m → Apart k m
  Apart-above n k [] h p = tt
  Apart-above n k ((s, i) ∷ m) h p = (omega arith, Apart-above i k m (omega arith) p.2)

  -- What `find` returns is pending, and no longer in the map once its key is deleted.
  pub find-Pending :
      (s n k : ℕ) (m : List (ℕ × ℕ))
      → Pending cell n m
      → find s m ≡ some k
      → (k < n) × (cell k ≡ open_chan) × Apart k (delete s m)
  unfolding find delete
  find-Pending s n k [] p e = cc
  find-Pending s n k ((t, i) ∷ m) p e = elim (Bool-cases (t == s)) [
    | inl hit ↦ ground (arith, Apart-above i i m, Apart-delete s k m, p)
    | inr miss ↦ ground (arith, find-Pending s i k m p.2, p)
  ]
