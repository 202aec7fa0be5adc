-- ===== src/Dap/Reconnect/Machine.antt =====
-- The reader, the senders and the reconnect loop at work together: which of them has to notice that
-- the connection is stale, and what happens when it drops while the hook runs.
use mcp_dap_server_k8s_forwa.Prelude.{
  ℕ, ◌≡◌, ◌≢◌, refl, ◌⊎◌, inl, inr, String, Option, none, some, Bool, true, false, arith, sym, ◌∙◌,
  Bool-cases,
}
use mcp_dap_server_k8s_forwa.Dap.Client.{
  Client, Pump, not_started, reading, parked, exited, mark_stale, raise_stale, signal_reconnect,
  close_registry, replace_conn, close,
}
use mcp_dap_server_k8s_forwa.Dap.Message.{Message, response, event, unknown}
use mcp_dap_server_k8s_forwa.Dap.Reader.Loss.{read_turn-lost}
use mcp_dap_server_k8s_forwa.Dap.Reader.{
  Read, arrived, failed, read_turn, turn_at, handle_read, try_resume, route, lose_connection,
  tell_loss, park,
}
use mcp_dap_server_k8s_forwa.Dap.Reconnect.{count_attempt, store_error}

-- Where the reconnect loop is: waiting for the signal, between two dials, inside the hook, gone.
pub data Phase : Type 0 where
  waiting dialling reinitialising ended : Phase

-- Who has won the compare-and-swap of `markStale` and has still to send the signal. There is at most
-- one, as the flag is up meanwhile.
pub data Owed : Type 0 where
  nothing by_sender by_reader : Owed

-- How far the reader is in its error branch, if it is there.
pub data Losing : Type 0 where
  in_turn : Losing
  marked emptied : String → Losing
  told : Losing

pub record Machine : Type 0 where
  pub client : Client
  pub phase : Phase
  pub owed : Owed
  pub losing : Losing

-- The end of the branch of a successful dial: the hook's error, and `stale.Store(false)`.
unfoldable pub after_hook : Option String → Client → Client
after_hook none c = record c { stale = false }
after_hook (some e) c = record (mark_stale c) { stale = false }

unfoldable pub installed : ℕ → Client → Client
installed k c = record (replace_conn k (count_attempt c)) { last_reconnect_error = some "" }

-- `reads` is a turn of the reader that nobody interrupts; `marks` a `markStale` of a sender or of a
-- forced reconnect that nobody interrupts. Interrupted, they are `swaps` and `signals`, and from a
-- failed read to the blocked loop `finds_lost` or `finds_stale`, `empties`, `tells` and `parks`. The
-- rest are the reconnect loop's steps, and `Close`.
pub data Step (m : Machine) : Machine → Type 0 where
  reads : (r : Read) → m.losing ≡ in_turn → Step m (record m { client = read_turn r m.client })
  marks : Step m (record m { client = mark_stale m.client })
  swaps :
      m.client.stale ≡ false → Step m (record m { client = raise_stale m.client; owed = by_sender })
  signals :
      (m.owed ≡ by_sender) ⊎ (m.owed ≡ by_reader)
      → Step m (record m { client = signal_reconnect m.client; owed = nothing })
  finds_lost :
      (e : String)
      → m.losing ≡ in_turn
      → m.client.pump ≡ reading
      → m.client.cancelled ≡ false
      → m.client.stale ≡ false
      → Step m (record m { client = raise_stale m.client; owed = by_reader; losing = marked e })
  finds_stale :
      (e : String)
      → m.losing ≡ in_turn
      → m.client.pump ≡ reading
      → m.client.cancelled ≡ false
      → m.client.stale ≡ true
      → Step m (record m { losing = marked e })
  empties :
      (e : String)
      → m.losing ≡ marked e
      → m.owed ≢ by_reader
      → Step m (record m { client = close_registry m.client; losing = emptied e })
  tells :
      (e : String)
      → m.losing ≡ emptied e
      → Step m (record m { client = tell_loss e m.client; losing = told })
  parks : m.losing ≡ told → Step m (record m { client = park m.client; losing = in_turn })
  wakes :
      m.phase ≡ waiting
      → m.client.reconn_ch ≡ true
      → m.client.redials ≡ true
      → Step m (record m { client = record m.client { reconn_ch = false }; phase = dialling })
  gives_up :
      m.phase ≡ waiting
      → m.client.reconn_ch ≡ true
      → m.client.redials ≡ false
      → Step m (record m { client = record m.client { reconn_ch = false }; phase = ended })
  dial_fails :
      (e : String)
      → m.phase ≡ dialling
      → Step m (record m { client = store_error e (count_attempt m.client) })
  dials :
      (k : ℕ)
      → m.phase ≡ dialling
      → Step m (record m { client = installed k m.client; phase = reinitialising })
  hook_returns :
      (e : Option String)
      → m.phase ≡ reinitialising
      → Step m (record m { client = after_hook e m.client; phase = waiting })
  closes : Step m (record m { client = close m.client })
  loop_exits : m.client.cancelled ≡ true → Step m (record m { phase = ended })

pub data Reach (m : Machine) : Machine → Type 0 where
  here : Reach m m
  next : {t u : Machine} → Reach m t → Step t u → Reach m u

-- `Start`, on a new client.
abbrev pub IsStarted : Machine → Type 0
IsStarted m =
    (m.phase ≡ waiting)
    × (m.client.stale ≡ false)
    × (m.client.reconn_ch ≡ false)
    × (m.owed ≡ nothing)
    × (m.losing ≡ in_turn)

-- A stale connection is signalled, or the goroutine that has raised the flag is about to signal, or
-- the loop is at work on it, or the loop is gone. A signal stands, and one is owed, only while the
-- connection is stale and the loop is not at work, and never both.
pub record Attended (stale signal : Bool) (owed : Owed) (phase : Phase) : Type 0 where
  pub attended :
      (stale ≡ false)
      ⊎ ((signal ≡ true)
          ⊎ (((owed ≡ by_sender) ⊎ (owed ≡ by_reader))
              ⊎ ((phase ≡ dialling) ⊎ ((phase ≡ reinitialising) ⊎ (phase ≡ ended)))))
  pub signalled : (signal ≡ false) ⊎ (stale ≡ true)
  pub owes : (owed ≡ nothing) ⊎ ((stale ≡ true) × (signal ≡ false))
  pub at_work :
      ((phase ≡ waiting) ⊎ (phase ≡ ended)) ⊎ ((stale ≡ true) × (signal ≡ false) × (owed ≡ nothing))

abbrev pub Inv : Machine → Type 0
Inv m = Attended m.client.stale m.client.reconn_ch m.owed m.phase

mark_stale-Inv :
    (c : Client) (o : Owed) (p : Phase)
    → Attended c.stale c.reconn_ch o p
    → Attended (mark_stale c).stale (mark_stale c).reconn_ch o p
unfolding mark_stale
mark_stale-Inv c o p v = ground arith

module _ (c : Client) (o : Owed) (p : Phase) (v : Attended c.stale c.reconn_ch o p) where
  try_resume-Inv : Attended (try_resume c).stale (try_resume c).reconn_ch o p
  unfolding try_resume
  try_resume-Inv = ground arith

  route-Inv : (now : ℕ) (x : Message) → Attended (route now x c).stale (route now x c).reconn_ch o p
  unfolding route
  route-Inv now (response r) = v
  route-Inv now (event e) = v
  route-Inv now unknown = v

  lose_connection-Inv :
      (e : String) → Attended (lose_connection e c).stale (lose_connection e c).reconn_ch o p
  unfolding lose_connection
  lose_connection-Inv e = mark_stale-Inv c o p v

  handle_read-Inv : (r : Read) → Attended (handle_read r c).stale (handle_read r c).reconn_ch o p
  unfolding handle_read
  handle_read-Inv (arrived now x) = route-Inv now x
  handle_read-Inv (failed e) = elim (Bool-cases c.cancelled) [
    | inl over ↦ simp over v
    | inr live ↦ simp live (lose_connection-Inv e)
  ]

  -- A turn of the reader, wherever it stands.
  turn_at-Inv :
      (pump : Pump) (r : Read) → Attended (turn_at pump r c).stale (turn_at pump r c).reconn_ch o p
  unfolding turn_at
  turn_at-Inv not_started r = v
  turn_at-Inv exited r = v
  turn_at-Inv parked r = try_resume-Inv
  turn_at-Inv reading r = elim (Bool-cases c.cancelled) [
    | inl over ↦ simp over v
    | inr live ↦ simp live (handle_read-Inv r)
  ]

pub Step-Inv : {m u : Machine} → Step m u → Inv m → Inv u
unfolding read_turn store_error count_attempt close close_registry installed replace_conn after_hook
    mark_stale
Step-Inv {m} (reads r q) v = turn_at-Inv m.client m.owed m.phase v m.client.pump r
Step-Inv {m} marks v = mark_stale-Inv m.client m.owed m.phase v
Step-Inv {m} (swaps p) v = ground arith
Step-Inv {m} (signals p) v = ground arith
Step-Inv {m} (finds_lost e p q r h) v = ground arith
Step-Inv {m} (finds_stale e p q r h) v = v
Step-Inv {m} (empties e p q) v = v
Step-Inv {m} (tells e p) v = v
Step-Inv {m} (parks p) v = v
Step-Inv {m} (wakes p q r) v = ground arith
Step-Inv {m} (gives_up p q r) v = ground arith
Step-Inv {m} (dial_fails e p) v = v
Step-Inv {m} (dials k p) v = ground arith
Step-Inv {m} (hook_returns none p) v = ground arith
Step-Inv {m} (hook_returns (some e) p) v = ground arith
Step-Inv {m} closes v = v
Step-Inv {m} (loop_exits p) v = ground arith

-- From `Start` on, in every order of the steps, the two halves of `markStale` and the parts of the
-- reader's error branch among them: the connection is not stale, or the signal stands, or the
-- goroutine that has raised the flag is about to send it, or the loop is dialling or in the hook, or
-- the loop has ended. A signal stands, or is about to be sent, only on a stale connection, and not
-- both; and while the loop is dialling or in the hook, the connection is stale and no signal stands
-- or is about to be sent.
pub stale_is_attended : {m u : Machine} → IsStarted m → Reach m u → Inv u
stale_is_attended s here = ground arith
stale_is_attended s (next r st) = Step-Inv st (stale_is_attended s r)

-- The connection is gone and the reader is blocked, but no goroutine knows: the flag is down, no
-- signal stands, and the loop waits for one.
pub record IsForgotten (m : Machine) : Type 0 where
  pub blocked : m.client.pump ≡ parked
  pub no_resume : m.client.pump_resume ≡ some false
  pub flag_down : m.client.stale ≡ false
  pub no_signal : m.client.reconn_ch ≡ false
  pub loop_waits : m.phase ≡ waiting

-- On a stale connection the hook's error changes nothing.
after_hook-stale :
    (e : Option String) (c : Client) → c.stale ≡ true → after_hook e c ≡ record c { stale = false }
unfolding after_hook mark_stale
after_hook-stale none c h = refl
after_hook-stale (some e) c h = simp h

stale-lose_connection :
    (e : String) (c : Client) → c.stale ≡ true → (lose_connection e c).stale ≡ true
unfolding lose_connection mark_stale
stale-lose_connection e c h = simp h

forgotten :
    (e : String) (c : Client) (o : Owed) (l : Losing)
    → (c.stale ≡ true) × (c.reconn_ch ≡ false)
    → c.pump_resume ≡ some false
    → IsForgotten (record {
      client = record (lose_connection e c) { stale = false };
      phase = waiting;
      owed = o;
      losing = l;
    })
unfolding lose_connection mark_stale
forgotten e c o l h token = record {
  blocked = refl;
  no_resume = ground arith;
  flag_down = refl;
  no_signal = ground arith;
  loop_waits = refl;
}

-- In the hook the flag is up and no signal stands.
in_hook :
    (m : Machine)
    → Inv m
    → m.phase ≡ reinitialising
    → (m.client.stale ≡ true) × (m.client.reconn_ch ≡ false)
in_hook m v p = elim v.at_work [
  | inl (inl w) ↦ let u : waiting ≡ reinitialising = sym w ∙ p in absurd (cc u)
  | inl (inr w) ↦ let u : ended ≡ reinitialising = sym w ∙ p in absurd (cc u)
  | inr w ↦ (w.0, w.1)
]

-- If the new connection drops while the hook runs (the loop is in the hook, the reader is reading
-- and not in its error branch, the client is not closed and no resume stands), then, whatever the hook returns, a state is
-- reached in which the drop is forgotten: the reader is blocked, the flag is down, no signal
-- stands, and the loop waits for one. `markStale` is a no-op while the connection is stale, and the
-- flag is cleared after.
pub drop_in_hook-IsForgotten :
    (m : Machine) (lost : String) (e : Option String)
    → Inv m
    → m.phase ≡ reinitialising
    → m.losing ≡ in_turn
    → m.client.pump ≡ reading
    → m.client.cancelled ≡ false
    → m.client.pump_resume ≡ some false
    → (u : Machine) × Reach m u × IsForgotten u
drop_in_hook-IsForgotten m lost e v p t r live token =
    let u1 : Machine = record m { client = read_turn (failed lost) m.client } in
    let u2 : Machine = record u1 { client = after_hook e u1.client; phase = waiting } in
    (
      u2,
      next (next here (reads (failed lost) t)) (hook_returns e p),
      rw
          (
            read_turn-lost lost m.client r live,
            after_hook-stale e (lose_connection lost m.client)
                (stale-lose_connection lost m.client (in_hook m v p).0),
          )
          (forgotten lost m.client m.owed m.losing (in_hook m v p) token),
    )
