-- ===== src/Dap/Ring/Window.antt =====
-- A stretch of the slice of `eventRing`, read around its end.
use native.Mathlib.Nat.{mod-add-mod, mod-eq_of_lt, mod-eq-sub-mod, add-zero}
use native.Mathlib.Decide.{dec_lt}
use mcp_dap_server_k8s_forwa.Prelude.{
  ℕ, zero, suc, ◌+◌, ◌-◌, ◌%◌, ◌^◌, ◌≤◌, ◌<◌, ◌≡◌, ◌≢◌, refl, ap, ap₂, ◌∙◌, List, [], ◌∷◌, ◌++◌,
  arith, inc_int, get_or, set, get_or-set_ne,
}
use mcp_dap_server_k8s_forwa.Dap.Ring.{copy_from}

module _ {ℓ} {A : Type ℓ} where
  -- `copy_from` without the wrap-around.
  unfoldable pub window : A → List A → ℕ → ℕ → ℕ → ℕ → List A
  window z items cap start i zero = []
  window z items cap start i (suc n) =
      get_or items ((start + i) % cap) z ∷ window z items cap start (i + 1) n

  pub copy_from-eq-window :
      (z : A) (items : List A) (cap start i n : ℕ)
      → start < 2 ^ 62
      → i + n < 2 ^ 62
      → copy_from z items cap start i n ≡ window z items cap start i n
  unfolding copy_from window
  copy_from-eq-window z items cap start i zero h k = refl
  copy_from-eq-window z items cap start i (suc n) h k =
      let e : (start + i) % 2 ^ 64 ≡ start + i = omega arith in
      let f : inc_int i ≡ i + 1 = omega arith in
      rw (e, f, copy_from-eq-window z items cap start (i + 1) n h (omega arith))

  pub window-snoc :
      (z : A) (items : List A) (cap start i n : ℕ)
      → window z items cap start i (suc n)
        ≡ window z items cap start i n ++ (get_or items ((start + (i + n)) % cap) z ∷ [])
  unfolding window
  window-snoc z items cap start i zero = rw add-zero
  window-snoc z items cap start i (suc n) =
      let e : i + suc n ≡ i + 1 + n = omega arith in rw (e, window-snoc z items cap start (i + 1) n)

  -- A write at a place that the window does not reach leaves it.
  pub window-set_ne :
      (z e : A) (items : List A) (cap start i n p : ℕ)
      → ((j : ℕ) → i ≤ j → j < i + n → p ≢ (start + j) % cap)
      → window z (set items p e) cap start i n ≡ window z items cap start i n
  unfolding window
  window-set_ne z e items cap start i zero p h = refl
  window-set_ne z e items cap start i (suc n) p h =
      ap₂ ◌∷◌ (get_or-set_ne items e z (h i (omega arith) (omega arith)))
        (window-set_ne z e items cap start (i + 1) n p (λ j a b. h j (omega arith) (omega arith)))

  -- Starting one place later is counting from one more.
  pub window_shift :
      (z : A) (items : List A) (cap start i n : ℕ)
      → window z items cap ((start + 1) % cap) i n ≡ window z items cap start (i + 1) n
  unfolding window
  window_shift z items cap start i zero = refl
  window_shift z items cap start i (suc n) =
      ap₂ ◌∷◌ (rw mod-add-mod (ap (λ k. get_or items (k % cap) z) (omega arith)))
        (window_shift z items cap start (i + 1) n)

-- Two places less than `cap` apart are different.
pub add-mod-ne : (cap s j k : ℕ) → s < cap → j < k → k < cap → (s + k) % cap ≢ (s + j) % cap
add-mod-ne cap s j k h a b = elim (dec_lt (s + k) cap) [
  | yes p ↦ omega (arith, mod-eq_of_lt p, mod-eq_of_lt {n = s + j} {m = cap} (omega arith))
  | no p ↦ elim (dec_lt (s + j) cap) [
    | yes q ↦ omega (
      arith,
      mod-eq_of_lt q,
      mod-eq-sub-mod {n = s + k} {m = cap} (omega arith),
      mod-eq_of_lt {n = s + k - cap} {m = cap} (omega arith),
    )
    | no q ↦ omega (
      arith,
      mod-eq-sub-mod {n = s + j} {m = cap} (omega arith),
      mod-eq_of_lt {n = s + j - cap} {m = cap} (omega arith),
      mod-eq-sub-mod {n = s + k} {m = cap} (omega arith),
      mod-eq_of_lt {n = s + k - cap} {m = cap} (omega arith),
    )
  ]
]

pub mod_of_lt : (a cap : ℕ) → a < cap → a % cap ≡ a
mod_of_lt a cap h = mod-eq_of_lt h

pub mod_of_ge : (a cap : ℕ) → cap ≤ a → a < cap + cap → a % cap ≡ a - cap
mod_of_ge a cap h k = mod-eq-sub-mod h ∙ mod-eq_of_lt (omega arith)
