-- ===== src/Session/Control/Snapshot.antt =====
-- tools.go: `getFullContext` and `writeScopesAndVariables`. The text is kept as the data that it
-- prints.
use mcp_dap_server_k8s_forwa.Prelude.{
  ℤ, pos, String, List, [], ◌∷◌, Option, none, some, if◌then◌else◌, eqb_ℤ, ltb_ℤ,
}
use mcp_dap_server_k8s_forwa.Dap.Message.{
  Body, StackFrame, Scope, Variable, stack_trace_body, scopes_body, variables_body,
}
use mcp_dap_server_k8s_forwa.Dap.Methods.{stack_trace_request, scopes_request, variables_request}
use mcp_dap_server_k8s_forwa.Session.{
  Env, Result, ok, err, Tool, pure, ◌>>=◌, ◌>>◌, modify, guard_started, wrapping, typed_call,
}

-- A scope with its variables: `unavailable` if they could not be retrieved, `no_reference` if the
-- scope has none to ask for.
pub data Listing : Type 0 where
  listed : List Variable → Listing
  unavailable no_reference : Listing

pub data Scopes : Type 0 where
  scopes_unavailable : Scopes
  scopes_listed : List (String × Listing) → Scopes

-- The frames, the first of which is the current location, and the scopes of the frame looked at.
pub record Context : Type 0 where
  pub frames : List StackFrame
  pub scopes : Scopes

abbrev pub frames_body : Body → Option (List StackFrame)
frames_body (stack_trace_body fs) = some fs
frames_body _ = none

abbrev pub scope_list : Body → Option (List Scope)
scope_list (scopes_body ss) = some ss
scope_list _ = none

abbrev pub variable_list : Body → Option (List Variable)
variable_list (variables_body vs) = some vs
variable_list _ = none

-- A step whose error is written into the text.
abbrev pub succeeded {ℓ} : {A : Type ℓ} → Result A → Option A
succeeded (ok a) = some a
succeeded (err e) = none

abbrev pub attempt {ℓ} : {A : Type ℓ} → Tool A → Tool (Option A)
attempt t s = (ok (succeeded (t s).0), (t s).1)

abbrev pub listing : Option (List Variable) → Listing
listing none = unavailable
listing (some vs) = listed vs

-- The variables of one scope.
abbrev pub list_one : Env → Scope → Tool Listing
list_one env scope =
    if ltb_ℤ (pos 0) scope.variables_reference
    then (attempt (typed_call env variable_list (variables_request scope.variables_reference))
        >>= λ vs. pure (listing vs))
    else pure no_reference

-- The loop over the scopes.
unfoldable pub list_scopes : Env → List Scope → Tool (List (String × Listing))
list_scopes env [] = pure []
list_scopes env (scope ∷ scopes) = do
  l ← list_one env scope
  rest ← list_scopes env scopes
  pure ((scope.name, l) ∷ rest)

abbrev pub list_found : Env → Option (List Scope) → Tool Scopes
list_found env none = pure scopes_unavailable
list_found env (some ss) = list_scopes env ss >>= λ l. pure (scopes_listed l)

-- `writeScopesAndVariables`
unfoldable pub write_scopes_and_variables : Env → ℤ → Tool Scopes
write_scopes_and_variables env frame_id = do
  ss ← attempt (typed_call env scope_list (scopes_request frame_id))
  list_found env ss

-- `targetFrameID`: the top frame's if none is asked for.
unfoldable pub target_frame : ℤ → List StackFrame → ℤ
target_frame frame_id [] = frame_id
target_frame frame_id (top ∷ frames) = if eqb_ℤ frame_id (pos 0) then top.id else frame_id

-- `getFullContext`
unfoldable pub get_full_context : Env → ℤ → ℤ → ℤ → Tool Context
get_full_context env thread_id frame_id max_frames = do
  guard_started
  frames ←
      wrapping "unable to get stack trace"
        (typed_call env frames_body (stack_trace_request thread_id (pos 0) max_frames))
  modify (λ s. record s { last_frame_id = target_frame frame_id frames })
  scopes ← write_scopes_and_variables env (target_frame frame_id frames)
  pure (record { frames = frames; scopes = scopes })
