-- ===== src/Dap/Ring.antt =====
-- dap.go, lines 924-981: `eventRing`, the circular buffer of recent events. Its mutex makes `push`
-- and `snapshot` atomic, so each is one function. Indices are `int`, kept as bit patterns.
pub mod Window
pub mod Refine
pub mod Replay
use mcp_dap_server_k8s_forwa.Prelude.{
  ℕ, zero, suc, ◌+◌, ◌-◌, ◌%◌, ◌^◌, List, [], ◌∷◌, if◌then◌else◌, ltb, ◌==◌, inc_int, get_or, set,
  replicate,
}

pub record EventRing {ℓ} (A : Type ℓ) : Type ℓ where
  pub items : List A
  pub idx : ℕ
  pub cap : ℕ
  pub size : ℕ

module _ {ℓ} {A : Type ℓ} where
  -- `zero_entry` is Go's zero value of an entry, which `make` fills the slice with.
  unfoldable pub new_event_ring : A → ℕ → EventRing A
  new_event_ring zero_entry cap = record {
    items = replicate cap zero_entry;
    idx = 0;
    cap = cap;
    size = 0;
  }

  -- A write past the slice would panic: `Refine.push-in_bounds` rules it out, so that what `set`
  -- does there is of no account.
  unfoldable pub push : EventRing A → A → EventRing A
  push r e = record r {
    items = set r.items r.idx e;
    idx = inc_int r.idx % r.cap;
    size = if ltb r.size r.cap then inc_int r.size else r.size;
  }

  -- `out[i] = r.items[(start+i)%r.cap]` for the `n` indices from `i` on.
  unfoldable pub copy_from : A → List A → ℕ → ℕ → ℕ → ℕ → List A
  copy_from z items cap start i zero = []
  copy_from z items cap start i (suc n) =
      get_or items ((start + i) % 2 ^ 64 % cap) z ∷ copy_from z items cap start (inc_int i) n

  -- `(r.idx - r.size + r.cap) % r.cap`
  unfoldable pub start_index : EventRing A → ℕ
  start_index r = (r.idx + 2 ^ 64 - r.size + r.cap) % 2 ^ 64 % r.cap

  -- Oldest first.
  unfoldable pub snapshot : A → EventRing A → List A
  unfolding copy_from start_index
  snapshot z r = if r.size == 0 then [] else copy_from z r.items r.cap (start_index r) 0 r.size
