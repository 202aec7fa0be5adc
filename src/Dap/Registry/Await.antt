-- ===== src/Dap/Registry/Await.antt =====
-- dap.go: `AwaitResponse`, in every order in which the reader and the waiter can meet. It looks the
-- channel up in one critical section and reads it afterwards, so the reader may come between
-- (`later`) or be there before the lookup (`earlier`).
use mcp_dap_server_k8s_forwa.Prelude.{
  ℕ, ◌≡◌, List, [], ◌∷◌, ◌++◌, none, some, Bool, if◌then◌else◌, All,
}
use mcp_dap_server_k8s_forwa.Dap.Message.{Message, Response, response}
use mcp_dap_server_k8s_forwa.Dap.Registry.{find, receive, got, closed, waits}
use mcp_dap_server_k8s_forwa.Dap.Registry.Acts.{Shared, Act, takes, delivers, act, run}
use mcp_dap_server_k8s_forwa.Dap.Registry.Inv.{Inv, act-Inv, run-Inv}
use mcp_dap_server_k8s_forwa.Dap.Registry.Lookup.{
  run-nil, run-cons, run-append, Untouched, Unregistering, find-run, find-run-none, find-act_takes,
}
use mcp_dap_server_k8s_forwa.Dap.Registry.Held.{
  Unreceived, Meanwhile, IsHeld-run, IsHeld-dispatch, receive-IsHeld,
}

-- `stale` is `ErrConnectionStale`, `cancelled` is `ctx.Err()`, `pending` a call that still blocks.
pub data Awaited : Type 0 where
  answered : Message → Awaited
  stale cancelled pending : Awaited

-- The `select`. `ctx_picked`: the context is done and its case is taken, which Go may do also when
-- the channel is ready.
unfoldable pub read_channel : Bool → ℕ → Shared → Awaited
read_channel ctx_picked i t =
    if ctx_picked
    then cancelled
    else elim (receive i t.registry).0 [ got m ↦ answered m | closed ↦ stale | waits ↦ pending ]

unfoldable pub await_response : Bool → ℕ → List Act → List Act → Shared → Awaited
unfolding read_channel
await_response ctx_picked s earlier later t =
    let t1 = (run earlier t).1 in
    elim (find s t1.registry.responses) [
      | none ↦ stale
      | some i ↦ read_channel ctx_picked i (run later t1).1
    ]

module _ (s : ℕ) where
  -- The race: if the reader has taken the response to request `s` before the lookup, and nobody
  -- registers `s` again, the response is never returned. The call says that the connection is
  -- stale, whatever happens later.
  pub await_response_late :
      (ctx_picked : Bool) (m : Response) (acts later : List Act) (t : Shared)
      → Inv t
      → t.flight ≡ none
      → m.request_seq ≡ s
      → All (Unregistering s) acts
      → await_response ctx_picked s (takes m ∷ acts) later t ≡ stale
  unfolding await_response
  await_response_late ctx_picked m acts later t v idle e h = rw (
    run-cons (takes m) acts t v,
    find-run-none s acts (act (takes m) t).1 (act-Inv (takes m) t v).1 h
        (find-act_takes s m t idle e),
    await_response,
  )

  -- In time: if request `s` is registered when the call looks its channel up, and the reader, which
  -- holds no other response then, takes the response, the call returns it, or `ctx.Err()` if the
  -- context's case is picked. Other goroutines may take any steps between: before the response is
  -- taken (`acts`) short of closing the registry or touching the entry; between that and the
  -- reader's send (`mid`) short of reading the channel; and after the send (`more`) short of reading
  -- the channel, of which this call is the one reader.
  pub await_response_in_time :
      (ctx_picked : Bool) (m : Response) (acts mid more : List Act) (t : Shared) (i : ℕ)
      → Inv t
      → find s t.registry.responses ≡ some i
      → m.request_seq ≡ s
      → All (Untouched s) acts
      → (run acts t).1.flight ≡ none
      → All (Meanwhile i) mid
      → All (Unreceived i) more
      → await_response ctx_picked s [] (acts ++ (takes m ∷ (mid ++ (delivers ∷ more)))) t
        ≡ (if ctx_picked then cancelled else answered (response m))
  unfolding await_response
  await_response_in_time ctx_picked m acts mid more t i v e q h idle n u =
      let w = (run-Inv acts t v).1 in
      let t1 = (run acts t).1 in
      let t2 = (act (takes m) t1).1 in
      let w1 = (act-Inv (takes m) t1 w).1 in
      let w2 = (run-Inv mid t2 w1).1 in
      let t3 = (run mid t2).1 in
      let w3 = (act-Inv delivers t3 w2).1 in
      let held =
        IsHeld-run i (response m) more (act delivers t3).1 w3 u
          (IsHeld-dispatch i m mid t1 w idle (rw q (find-run s acts t i v h e)) n) in
      let t4 = (run more (act delivers t3).1).1 in
      rw (run-nil t, e, await_response)
        (rw (
          run-nil t,
          run-append acts (takes m ∷ (mid ++ (delivers ∷ more))) t v,
          run-cons (takes m) _ t1 w,
          run-append mid (delivers ∷ more) t2 w1,
          run-cons delivers more t3 w2,
          receive-IsHeld i (response m) t4.registry held,
          read_channel,
        ))
