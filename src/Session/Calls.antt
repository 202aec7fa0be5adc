-- ===== src/Session/Calls.antt =====
-- What an exchange changes: the client only, and the wire by the one request.
use mcp_dap_server_k8s_forwa.Prelude.{
  ℕ, ◌≡◌, refl, sym, ap, ◌∙◌, String, true, List, [], ◌∷◌, ◌++◌, map, map-append, Option, none,
  some, Bool-cases, Option-cases, inl, inr,
}
use mcp_dap_server_k8s_forwa.Dap.Request.{Command, Request}
use mcp_dap_server_k8s_forwa.Dap.Message.{Response, Body}
use mcp_dap_server_k8s_forwa.Dap.Client.{
  Client, new_request, send_and_register, send_and_register_raw, raw_send, close_registry,
  mark_stale,
}
use mcp_dap_server_k8s_forwa.Dap.Client.Sending.{
  send_and_register-stale, send_and_register-ok, send_and_register-fails,
}
use mcp_dap_server_k8s_forwa.Dap.Methods.{Sent, request, request_raw}
use mcp_dap_server_k8s_forwa.Session.Steps.{bind-inv, bind-state, err≢ok}
use mcp_dap_server_k8s_forwa.Session.{
  Session, Env, ok, call, validated, typed_call, check_success, expect_body, failed,
  unexpected_type, said, not_started, sending, after_reply, Reply, answered, dropped, given_up,
}

-- The commands that a client, or a session's client, has written.
abbrev pub written_by : Client → List Command
written_by c = map (λ r. r.command) c.wire

abbrev pub commands : Session → List Command
commands s = elim s.client [ none ↦ [] | some c ↦ written_by c ]

-- A method that, when it succeeds, has written the command and nothing else.
abbrev pub Sends : Command → (Option String → Client → Sent) → Type 0
Sends cmd method =
    (w : Option String) (c : Client)
    → (method w c).0.1 ≡ none
    → written_by (method w c).1 ≡ written_by c ++ (cmd ∷ [])

send_and_register-writes :
    (w : Option String) (s : ℕ) (req : Request) (c : Client)
    → (send_and_register w s req c).0 ≡ none
    → (send_and_register w s req c).1.wire ≡ c.wire ++ (req ∷ [])
send_and_register-writes w s req c h = elim (Bool-cases c.stale) [
  | inl e ↦ absurd (cc (h, ap (λ t. t.0) (send_and_register-stale w s req c e)))
  | inr e ↦ elim (Option-cases w) [
    | inl u ↦ rw u (send_and_register-ok s req c e).1
    | inr (x, u) ↦ absurd (
        cc (
          h,
          ap (λ v. (send_and_register v s req c).0) u,
          (send_and_register-fails x s 0 req c e).0,
        ))
  ]
]

send_and_register_raw-writes :
    (w : Option String) (s : ℕ) (req : Request) (c : Client)
    → (send_and_register_raw w s req c).0 ≡ none
    → (send_and_register_raw w s req c).1.wire ≡ c.wire ++ (req ∷ [])
unfolding send_and_register_raw raw_send
send_and_register_raw-writes none s req c h = refl
send_and_register_raw-writes (some x) s req c h = absurd (cc h)

pub request-Sends : (cmd : Command) → Sends cmd (request cmd)
unfolding request new_request
request-Sends cmd w c h =
    let (req, c1) = new_request cmd c in
    ap (map (λ r. r.command)) (send_and_register-writes w req.seq req c1 h)
    ∙ map-append (λ r. r.command) c.wire (req ∷ [])

pub request_raw-Sends : (cmd : Command) → Sends cmd (request_raw cmd)
unfolding request_raw new_request
request_raw-Sends cmd w c h =
    let (req, c1) = new_request cmd c in
    ap (map (λ r. r.command)) (send_and_register_raw-writes w req.seq req c1 h)
    ∙ map-append (λ r. r.command) c.wire (req ∷ [])

wire-after_reply : (a : Reply) (n : ℕ) (c : Client) → (after_reply a n c).wire ≡ c.wire
unfolding after_reply close_registry mark_stale
wire-after_reply (answered r) n c = refl
wire-after_reply dropped n c = elim (Bool-cases c.stale) [ inl e ↦ simp e | inr e ↦ simp e ]
wire-after_reply (given_up e) n c = refl

-- Nothing but the client is changed.
abbrev pub Kept : Session → Session → Type 0
Kept s t = (c : Option Client) × (t ≡ record s { client = c })

pub call-Kept :
    (env : Env) (m : Option String → Client → Sent) (s : Session) → Kept s (call env m s).1
unfolding call
call-Kept env m s = elim (Option-cases s.client) [
  | inl e ↦ rw (e, call) (s.client, refl)
  | inr (c, e) ↦
      rw (e, call)
        (elim (Option-cases (m (env.written c.seq) c).0.1) [
          | inl f ↦ rw f (some _, refl)
          | inr (x, f) ↦ rw f (some _, refl)
        ])
]

-- The state after a validated call, or one whose body is looked at, is the call's.
pub validated-state :
    (env : Env) (p : String) (m : Option String → Client → Sent) (s : Session)
    → (validated env p m s).1 ≡ (call env m s).1
unfolding validated
validated-state env p m s =
    bind-state (call env m) (check_success p) s (λ t. t ≡ (call env m s).1) refl
      (λ r e. elim (Bool-cases r.success) [ inl f ↦ rw f | inr f ↦ rw f ])

pub typed_call-state {ℓ} :
    {B : Type ℓ} (env : Env) (typed : Body → Option B) (m : Option String → Client → Sent)
    (s : Session)
    → (typed_call env typed m s).1 ≡ (call env m s).1
unfolding typed_call
typed_call-state env typed m s =
    bind-state (call env m) (expect_body typed) s (λ t. t ≡ (call env m s).1) refl
      (λ r e. elim (Bool-cases r.success) [
        | inl f ↦ elim (Option-cases (typed r.body)) [ inl g ↦ rw (f, g) | inr (b, g) ↦ rw (f, g) ]
        | inr f ↦ rw f
      ])

-- They succeed only if the call does, with a response that says so.
pub validated-inv :
    (env : Env) (p : String) (m : Option String → Client → Sent) (s : Session)
    → (validated env p m s).0 ≡ ok tt
    → (r : Response) × ((call env m s).0 ≡ ok r) × (r.success ≡ true)
unfolding validated
validated-inv env p m s h =
    let (r, e, q) = bind-inv (call env m) (check_success p) s tt h in
    elim (Bool-cases r.success) [
      | inl f ↦ (r, e, f)
      | inr f ↦ err≢ok (failed p r.message) (validated env p m s).0 (ap (λ t. t.0) q ∙ rw f refl) h
    ]

pub typed_call-inv {ℓ} :
    {B : Type ℓ} (env : Env) (typed : Body → Option B) (m : Option String → Client → Sent)
    (s : Session) (b : B)
    → (typed_call env typed m s).0 ≡ ok b
    → (r : Response) × ((call env m s).0 ≡ ok r) × (r.success ≡ true) × (typed r.body ≡ some b)
unfolding typed_call
typed_call-inv env typed m s b h =
    let (r, e, q) = bind-inv (call env m) (expect_body typed) s b h in
    elim (Bool-cases r.success) [
      | inl f ↦ elim (Option-cases (typed r.body)) [
        | inl g ↦
            err≢ok unexpected_type (typed_call env typed m s).0 (ap (λ t. t.0) q ∙ rw (f, g) refl) h
        | inr (b', g) ↦
            let u : ok b' ≡ ok b = sym (rw (f, g) refl) ∙ sym (ap (λ t. t.0) q) ∙ h in
            (r, e, f, g ∙ ap some (cc u))
      ]
      | inr f ↦ err≢ok (said r.message) (typed_call env typed m s).0 (ap (λ t. t.0) q ∙ rw f refl) h
    ]

-- A call that is answered has written its command.
pub call-commands :
    (env : Env) (cmd : Command) (m : Option String → Client → Sent) (s : Session) (r : Response)
    → Sends cmd m
    → (call env m s).0 ≡ ok r
    → commands (call env m s).1 ≡ commands s ++ (cmd ∷ [])
unfolding call
call-commands env cmd m s r w h = elim (Option-cases s.client) [
  | inl e ↦ err≢ok not_started (call env m s).0 (rw (e, call) refl) h
  | inr (c, e) ↦ elim (Option-cases (m (env.written c.seq) c).0.1) [
    | inl f ↦
        rw (e, call, f)
          (ap (map (λ r. r.command)) (wire-after_reply _ _ _) ∙ w (env.written c.seq) c f)
    | inr (x, f) ↦ err≢ok (sending x) (call env m s).0 (rw (e, call, f) refl) h
  ]
]

-- A validated or a typed call that succeeds has written its command.
pub validated-commands :
    (env : Env) (p : String) (cmd : Command) (m : Option String → Client → Sent) (s : Session)
    → Sends cmd m
    → (validated env p m s).0 ≡ ok tt
    → commands (validated env p m s).1 ≡ commands s ++ (cmd ∷ [])
validated-commands env p cmd m s w h =
    let (r, e, f) = validated-inv env p m s h in
    ap commands (validated-state env p m s) ∙ call-commands env cmd m s r w e

pub typed_call-commands {ℓ} :
    {B : Type ℓ} (env : Env) (typed : Body → Option B) (cmd : Command)
    (m : Option String → Client → Sent) (s : Session) (b : B)
    → Sends cmd m
    → (typed_call env typed m s).0 ≡ ok b
    → commands (typed_call env typed m s).1 ≡ commands s ++ (cmd ∷ [])
typed_call-commands env typed cmd m s b w h =
    let (r, e, f, g) = typed_call-inv env typed m s b h in
    ap commands (typed_call-state env typed m s) ∙ call-commands env cmd m s r w e

pub validated-Kept :
    (env : Env) (p : String) (m : Option String → Client → Sent) (s : Session)
    → Kept s (validated env p m s).1
validated-Kept env p m s = rw (validated-state env p m s) (call-Kept env m s)

pub typed_call-Kept {ℓ} :
    {B : Type ℓ} (env : Env) (typed : Body → Option B) (m : Option String → Client → Sent)
    (s : Session)
    → Kept s (typed_call env typed m s).1
typed_call-Kept env typed m s = rw (typed_call-state env typed m s) (call-Kept env m s)

pub Kept-refl : (s : Session) → Kept s s
Kept-refl s = (s.client, refl)

pub Kept-trans : (s t u : Session) → Kept s t → Kept t u → Kept s u
Kept-trans s t u (c, e) (d, f) =
    let g : Session → Session = λ x. record x { client = d } in (d, f ∙ ap g e)
