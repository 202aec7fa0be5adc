-- ===== src/Dap/Ring/Refine.antt =====
-- The ring holds the last `cap` entries pushed, oldest first.
use mcp_dap_server_k8s_forwa.Prelude.{
  ℕ, zero, suc, ◌+◌, ◌-◌, ◌%◌, ◌^◌, ◌≤◌, ◌<◌, ◌≡◌, refl, ◌⊎◌, sym, ap, ◌∙◌, List, [], ◌∷◌, ◌++◌,
  arith, if◌then◌else◌, ltb, ◌==◌, inc_int, set, length, drop, length-set, get_or-set_self,
  length-replicate, leb, ==_iff, Bool-cases, inl, inr,
}
use mcp_dap_server_k8s_forwa.Dap.Ring.{EventRing, new_event_ring, push, start_index, snapshot}
use mcp_dap_server_k8s_forwa.Dap.Ring.Window.{
  window, add-mod-ne, copy_from-eq-window, window-snoc, window-set_ne, window_shift, mod_of_lt,
  mod_of_ge,
}

module _ {ℓ} {A : Type ℓ} where
  pub record IsValid (r : EventRing A) : Type ℓ where
    pub storage : length r.items ≡ r.cap
    pub nonempty : 0 < r.cap
    pub small : r.cap < 2 ^ 62
    pub idx_in : r.idx < r.cap
    pub size_in : r.size ≤ r.cap

  pub new_event_ring-IsValid :
      (z : A) (cap : ℕ) → 0 < cap → cap < 2 ^ 62 → IsValid (new_event_ring z cap)
  unfolding new_event_ring
  new_event_ring-IsValid z cap h k = record {
    storage = length-replicate cap z;
    nonempty = h;
    small = k;
    idx_in = h;
    size_in = omega arith;
  }

  -- The write of `push` stays inside the slice, and the ring stays valid.
  pub push-IsValid : {r : EventRing A} (e : A) → IsValid r → IsValid (push r e)
  unfolding push
  push-IsValid {r} e v = ground (arith, length-set r.items r.idx e)

  pub push-in_bounds : {r : EventRing A} → IsValid r → r.idx < length r.items
  push-in_bounds v = omega arith

module _ {ℓ} {A : Type ℓ} where
  start_index_lem :
      {r : EventRing A}
      → IsValid r
      → start_index r ≡ (if leb r.size r.idx then r.idx - r.size else r.idx + r.cap - r.size)
  unfolding start_index
  start_index_lem {r} v =
      let e : (r.idx + 2 ^ 64 - r.size + r.cap) % 2 ^ 64 ≡ r.idx + r.cap - r.size = omega arith in
      rw e (
        ground (
          arith,
          mod_of_lt (r.idx + r.cap - r.size) r.cap,
          mod_of_ge (r.idx + r.cap - r.size) r.cap,
        ))

  idx-push :
      {r : EventRing A} (e : A)
      → IsValid r
      → (push r e).idx ≡ (if r.idx + 1 == r.cap then 0 else r.idx + 1)
  unfolding push
  idx-push {r} e v =
      let f : inc_int r.idx ≡ r.idx + 1 = omega arith in
      rw f (ground (arith, mod_of_lt (r.idx + 1) r.cap, mod_of_ge (r.idx + 1) r.cap))

  size-push :
      {r : EventRing A} (e : A)
      → IsValid r
      → (push r e).size ≡ (if ltb r.size r.cap then r.size + 1 else r.cap)
  unfolding push
  size-push {r} e v = ground arith

  pub cap-push : (r : EventRing A) (e : A) → (push r e).cap ≡ r.cap
  unfolding push
  cap-push r e = refl

  items-push : (r : EventRing A) (e : A) → (push r e).items ≡ set r.items r.idx e
  unfolding push
  items-push r e = refl

  -- Below the capacity the start stays and the write is just past the contents.
  start_index-push_room :
      {r : EventRing A} (e : A)
      → IsValid r
      → r.size < r.cap
      → start_index (push r e) ≡ start_index r
  start_index-push_room {r} e v h = ground (
    arith,
    start_index_lem v,
    start_index_lem (push-IsValid e v),
    idx-push e v,
    size-push e v,
    cap-push r e,
  )

  idx_of_start : {r : EventRing A} → IsValid r → (start_index r + r.size) % r.cap ≡ r.idx
  idx_of_start {r} v = ground (
    arith,
    start_index_lem v,
    mod_of_lt (start_index r + r.size) r.cap,
    mod_of_ge (start_index r + r.size) r.cap,
  )

  start_of_full :
      {r : EventRing A} → IsValid r → r.size ≡ r.cap → r.idx ≡ (start_index r + 0) % r.cap
  start_of_full {r} v h = ground (arith, start_index_lem v, mod_of_lt (start_index r + 0) r.cap)

  start_index-push_full :
      {r : EventRing A} (e : A)
      → IsValid r
      → r.size ≡ r.cap
      → start_index (push r e) ≡ (start_index r + 1) % r.cap
  start_index-push_full {r} e v h = ground (
    arith,
    start_index_lem v,
    start_index_lem (push-IsValid e v),
    idx-push e v,
    size-push e v,
    cap-push r e,
    mod_of_lt (start_index r + 1) r.cap,
    mod_of_ge (start_index r + 1) r.cap,
  )

  start_index-lt : {r : EventRing A} → IsValid r → start_index r < r.cap
  start_index-lt {r} v = ground (arith, start_index_lem v)

module _ {ℓ} {A : Type ℓ} (z : A) where
  -- The entries of the ring, oldest first.
  pub contents : EventRing A → List A
  contents r = window z r.items r.cap (start_index r) 0 r.size

  -- `snapshot` returns the contents.
  pub snapshot-eq-contents : {r : EventRing A} → IsValid r → snapshot z r ≡ contents r
  unfolding snapshot contents window
  snapshot-eq-contents {r} v = elim (Bool-cases (r.size == 0)) [
    | inl e ↦ rw e (rw ((==_iff r.size 0).0 e))
    | inr e ↦ rw e (
        copy_from-eq-window z r.items r.cap (start_index r) 0 r.size
          (omega (arith, start_index-lt v)) (omega arith))
  ]

  length-window : (items : List A) (cap start i n : ℕ) → length (window z items cap start i n) ≡ n
  unfolding window
  length-window items cap start i zero = refl
  length-window items cap start i (suc n) = ap suc (length-window items cap start (i + 1) n)

  pub length-contents : (r : EventRing A) → length (contents r) ≡ r.size
  unfolding contents
  length-contents r = length-window r.items r.cap (start_index r) 0 r.size

  pub contents-new_event_ring : (cap : ℕ) → contents (new_event_ring z cap) ≡ []
  unfolding contents window new_event_ring
  contents-new_event_ring cap = refl

  -- The write at `idx` lies outside `n` places from `i` on, counted from the start.
  window-set_idx :
      {r : EventRing A} (e : A) (i n : ℕ)
      → IsValid r
      → i + n ≤ r.size
      → (r.size < r.cap) ⊎ ((r.size ≡ r.cap) × (0 < i))
      → window z (set r.items r.idx e) r.cap (start_index r) i n
        ≡ window z r.items r.cap (start_index r) i n
  window-set_idx {r} e i n v fits apart =
      window-set_ne z e r.items r.cap (start_index r) i n r.idx λ j a b q. elim apart [
        | inl room ↦
            add-mod-ne r.cap (start_index r) j r.size (start_index-lt v) (omega arith) room
              (idx_of_start v ∙ q)
        | inr (full, late) ↦
            add-mod-ne r.cap (start_index r) 0 j (start_index-lt v) (omega arith) (omega arith)
              (sym q ∙ start_of_full v full)
      ]

  pub contents-push_room :
      {r : EventRing A} (e : A)
      → IsValid r
      → r.size < r.cap
      → contents (push r e) ≡ contents r ++ (e ∷ [])
  unfolding contents
  contents-push_room {r} e v h =
      let n : (push r e).size ≡ suc r.size = ground (arith, size-push e v) in
      let k : 0 + r.size ≡ r.size = omega arith in
      rw (
        start_index-push_room e v h,
        n,
        items-push r e,
        cap-push r e,
        window-snoc,
        k,
        idx_of_start v,
        get_or-set_self r.items r.idx e z (omega arith),
        window-set_idx e 0 r.size v (omega arith) (inl h),
      )

  pub contents-push_full :
      {r : EventRing A} (e : A)
      → IsValid r
      → r.size ≡ r.cap
      → contents (push r e) ≡ drop 1 (contents r) ++ (e ∷ [])
  unfolding contents
  contents-push_full {r} e v h =
      let m : r.cap ≡ suc (r.cap - 1) = omega arith in
      let n : (push r e).size ≡ suc (r.cap - 1) = ground (arith, size-push e v) in
      let k : 0 + 1 + (r.cap - 1) ≡ r.size = omega arith in
      let old : r.size ≡ suc (r.cap - 1) = omega arith in
      rw
        (
          start_index-push_full e v h,
          n,
          items-push r e,
          cap-push r e,
          window_shift,
          window-snoc,
          k,
          idx_of_start v,
          get_or-set_self r.items r.idx e z (omega arith),
          window-set_idx e (0 + 1) (r.cap - 1) v (omega arith) (inr (h, omega arith)),
          old,
        )
        (unfold window in refl)
