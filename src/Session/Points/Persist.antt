-- ===== src/Session/Points/Persist.antt =====
-- What `breakpoint` keeps: the list is stored with a success only, and it never has a duplicate.
use mcp_dap_server_k8s_forwa.Prelude.{
  ℤ, ◌≡◌, ◌≢◌, ◌⊎◌, sym, ap, ◌∙◌, String, List, [], ◌∷◌, ◌++◌, false, inl, inr, str_eq, eq_iff,
  eq_refl, Bool-cases,
}
use mcp_dap_server_k8s_forwa.Dap.Request
use mcp_dap_server_k8s_forwa.Dap.Message.{Breakpoint}
use mcp_dap_server_k8s_forwa.Dap.Methods.{set_function_breakpoints_request}
use mcp_dap_server_k8s_forwa.Session.{
  Session, Env, Error, ok, err, Tool, Result-cases, ◌>>=◌, validated,
}
use mcp_dap_server_k8s_forwa.Session.Steps.{err≢ok, bind-fails}
use mcp_dap_server_k8s_forwa.Session.Calls.{commands, Kept, validated-Kept}
use mcp_dap_server_k8s_forwa.Session.Points.{
  Params, Answer, set_at, already_set, lines_of, put_lines, with_function, has_line, set_lines,
  last_breakpoint, persist_lines, persist_functions, breakpoint, breakpoint_at_line,
  breakpoint_on_function,
}
use mcp_dap_server_k8s_forwa.Session.Points.Books.{
  lines_of-put_self, lines_of-put_ne, IsDistinct, IsDistinct-append, IsMap, IsMap-put,
}
use mcp_dap_server_k8s_forwa.Session.Points.Store.{
  set_lines-Kept, set_lines-commands, last_breakpoint-state, breakpoint_at_line-inv,
  breakpoint_on_function-inv, breakpoint-cases,
}

pub stored_lines :
    (env : Env) (file : String) (line : ℤ) (s : Session) (a : Answer)
    → (breakpoint_at_line env file line s).0 ≡ ok a
    → (breakpoint_at_line env file line s).1.breakpoints
      ≡ put_lines file (lines_of file s.breakpoints ++ (line ∷ [])) s.breakpoints
stored_lines env file line s a h =
    let (bs, u, e) = breakpoint_at_line-inv env file line s a h in
    let lines = lines_of file s.breakpoints ++ (line ∷ []) in
    let (c, k) = set_lines-Kept env file lines s in
    ap (λ t. t.breakpoints) e ∙ ap (λ t. put_lines file lines t.breakpoints) k

set_at_line :
    (env : Env) (p : Params) (s : Session) (i l : ℤ) (f : String)
    → (breakpoint env p s).0 ≡ ok (set_at i f l)
    → (breakpoint env p s ≡ breakpoint_at_line env p.file p.line s)
set_at_line env p s i l f h = elim (breakpoint-cases env p s) [
  | inl (e, q) ↦ err≢ok e (breakpoint env p s).0 (ap (λ r. r.0) q) h
  | inr (inl q) ↦
      let u : ok (already_set p.file p.line) ≡ ok (set_at i f l) = sym (ap (λ r. r.0) q) ∙ h in
      absurd (cc u)
  | inr (inr (inl q)) ↦
      let v =
        breakpoint_on_function-inv env p.function s (set_at i f l) (sym (ap (λ r. r.0) q) ∙ h) in
      absurd (cc v.0)
  | inr (inr (inr (d, q))) ↦ q
]

-- When `breakpoint` answers that a breakpoint is set at a line, exactly one request was written: it
-- has the file's stored lines with the new line behind them, which is the list stored then. The
-- lines of another file and the functions are as they were.
pub breakpoint-set_at :
    (env : Env) (p : Params) (s : Session) (i l : ℤ) (f g : String)
    → (breakpoint env p s).0 ≡ ok (set_at i f l)
    → g ≢ p.file
    → let t = (breakpoint env p s).1 in
      let lines = lines_of p.file s.breakpoints ++ (p.line ∷ []) in
      (commands t ≡ commands s ++ (Request.set_breakpoints p.file lines ∷ []))
      × (lines_of p.file t.breakpoints ≡ lines)
      × (lines_of g t.breakpoints ≡ lines_of g s.breakpoints)
      × (t.function_breakpoints ≡ s.function_breakpoints)
breakpoint-set_at env p s i l f g h ne =
    let q = set_at_line env p s i l f h in
    let lines = lines_of p.file s.breakpoints ++ (p.line ∷ []) in
    let w = sym (ap (λ r. r.0) q) ∙ h in
    let (bs, u, e) = breakpoint_at_line-inv env p.file p.line s (set_at i f l) w in
    let (c, k) = set_lines-Kept env p.file lines s in
    let b = stored_lines env p.file p.line s (set_at i f l) w in
    rw q (
      ap commands e ∙ set_lines-commands env p.file lines s bs u,
      ap (lines_of p.file) b ∙ lines_of-put_self p.file lines s.breakpoints,
      ap (lines_of g) b ∙ lines_of-put_ne p.file g lines s.breakpoints ne,
      ap (λ t. t.function_breakpoints) e ∙ ap (λ t. t.function_breakpoints) k,
    )

abbrev pub SameBooks : Session → Session → Type 0
SameBooks s t = (t.breakpoints ≡ s.breakpoints) × (t.function_breakpoints ≡ s.function_breakpoints)

pub Kept-SameBooks : (s t : Session) → Kept s t → SameBooks s t
Kept-SameBooks s t (c, k) = (ap (λ t. t.breakpoints) k, ap (λ t. t.function_breakpoints) k)

-- Without an answer the books are the same.
at_line_fails :
    (env : Env) (file : String) (line : ℤ) (s : Session) (e : Error)
    → (breakpoint_at_line env file line s).0 ≡ err e
    → SameBooks s (breakpoint_at_line env file line s).1
unfolding breakpoint_at_line
at_line_fails env file line s e h =
    let lines = lines_of file s.breakpoints ++ (line ∷ []) in
    let rest : List Breakpoint → Tool Answer =
      λ bs. last_breakpoint bs >>= persist_lines file lines in
    let t = (set_lines env file lines s).1 in
    let k = set_lines-Kept env file lines s in
    elim (bind-fails (set_lines env file lines) rest s e h) [
      | inl q ↦ rw q (Kept-SameBooks s t k)
      | inr (bs, u, q) ↦
          elim (bind-fails (last_breakpoint bs) (persist_lines file lines) t e
            (sym (ap (λ r. r.0) q) ∙ h)) [
              | inl v ↦ rw (ap (λ r. r.1) q, v, last_breakpoint-state bs t) (Kept-SameBooks s t k)
              | inr (b, v, w) ↦
                  err≢ok e (breakpoint_at_line env file line s).0 h (ap (λ r. r.0) (q ∙ w))
            ]
    ]

on_function_fails :
    (env : Env) (function : String) (s : Session) (e : Error)
    → (breakpoint_on_function env function s).0 ≡ err e
    → SameBooks s (breakpoint_on_function env function s).1
unfolding breakpoint_on_function
on_function_fails env function s e h =
    let functions = with_function function s.function_breakpoints in
    let p : String = "unable to set function breakpoint" in
    let m = set_function_breakpoints_request functions in
    let t = (validated env p m s).1 in
    elim (bind-fails (validated env p m) (λ _. persist_functions functions function) s e h) [
      | inl q ↦ rw q (Kept-SameBooks s t (validated-Kept env p m s))
      | inr (x, u, q) ↦ err≢ok e (breakpoint_on_function env function s).0 h (ap (λ r. r.0) q)
    ]

-- When `breakpoint` returns an error, whichever, no stored breakpoint is lost, added or changed.
pub breakpoint-fails :
    (env : Env) (p : Params) (s : Session) (e : Error)
    → (breakpoint env p s).0 ≡ err e
    → let t = (breakpoint env p s).1 in
      (t.breakpoints ≡ s.breakpoints) × (t.function_breakpoints ≡ s.function_breakpoints)
breakpoint-fails env p s e h = elim (breakpoint-cases env p s) [
  | inl (x, q) ↦ (ap (λ r. r.1.breakpoints) q, ap (λ r. r.1.function_breakpoints) q)
  | inr (inl q) ↦ err≢ok e (breakpoint env p s).0 h (ap (λ r. r.0) q)
  | inr (inr (inl q)) ↦ rw q (on_function_fails env p.function s e (sym (ap (λ r. r.0) q) ∙ h))
  | inr (inr (inr (d, q))) ↦ rw q (at_line_fails env p.file p.line s e (sym (ap (λ r. r.0) q) ∙ h))
]

-- No file has a line twice.
abbrev pub IsUnique : Session → Type 0
IsUnique s = (g : String) → IsDistinct (lines_of g s.breakpoints)

-- The maps are well formed.
abbrev pub IsValid : Session → Type 0
IsValid s = IsMap s.breakpoints × IsUnique s

IsUnique-same : (s t : Session) → t.breakpoints ≡ s.breakpoints → IsUnique s → IsUnique t
IsUnique-same s t e v g = rw e (v g)

IsUnique-put :
    (file : String) (line : ℤ) (s t : Session)
    → has_line line (lines_of file s.breakpoints) ≡ false
    → t.breakpoints ≡ put_lines file (lines_of file s.breakpoints ++ (line ∷ [])) s.breakpoints
    → IsUnique s
    → IsUnique t
IsUnique-put file line s t d e v g =
    let lines = lines_of file s.breakpoints ++ (line ∷ []) in
    elim (Bool-cases (str_eq g file)) [
      | inl u ↦
          rw (e, (eq_iff g file).0 u, lines_of-put_self file lines s.breakpoints)
            (IsDistinct-append line (lines_of file s.breakpoints) d (v file))
      | inr u ↦
          let ne : g ≢ file = λ q. absurd (cc (u, ap (λ x. str_eq x file) q, eq_refl file)) in
          rw (e, lines_of-put_ne file g lines s.breakpoints ne) (v g)
    ]

on_function_books :
    (env : Env) (function : String) (s : Session)
    → (breakpoint_on_function env function s).1.breakpoints ≡ s.breakpoints
on_function_books env function s = elim (Result-cases (breakpoint_on_function env function s).0) [
  | inl (a, e) ↦
      let functions = with_function function s.function_breakpoints in
      let p : String = "unable to set function breakpoint" in
      let (c, k) = validated-Kept env p (set_function_breakpoints_request functions) s in
      ap (λ t. t.breakpoints) (breakpoint_on_function-inv env function s a e).1
      ∙ ap (λ t. t.breakpoints) k
  | inr (x, e) ↦ (on_function_fails env function s x e).0
]

-- Either the map is as it was, or the new line stands behind the others of its file.
pub breakpoint-books :
    (env : Env) (p : Params) (s : Session)
    → ((breakpoint env p s).1.breakpoints ≡ s.breakpoints)
      ⊎ ((has_line p.line (lines_of p.file s.breakpoints) ≡ false)
          × ((breakpoint env p s).1.breakpoints
              ≡ put_lines p.file (lines_of p.file s.breakpoints ++ (p.line ∷ [])) s.breakpoints))
breakpoint-books env p s = elim (breakpoint-cases env p s) [
  | inl (x, q) ↦ inl (ap (λ r. r.1.breakpoints) q)
  | inr (inl q) ↦ inl (ap (λ r. r.1.breakpoints) q)
  | inr (inr (inl q)) ↦ inl (ap (λ r. r.1.breakpoints) q ∙ on_function_books env p.function s)
  | inr (inr (inr (d, q))) ↦ elim (Result-cases (breakpoint_at_line env p.file p.line s).0) [
    | inl (a, e) ↦ inr (d, ap (λ r. r.1.breakpoints) q ∙ stored_lines env p.file p.line s a e)
    | inr (x, e) ↦ inl (ap (λ r. r.1.breakpoints) q ∙ (at_line_fails env p.file p.line s x e).0)
  ]
]

-- Whatever `breakpoint` is asked for and however it ends, the map keeps one entry for a file and no
-- file has a line twice, if that was so before.
pub breakpoint-IsValid :
    (env : Env) (p : Params) (s : Session) → IsValid s → IsValid (breakpoint env p s).1
breakpoint-IsValid env p s (w, v) =
    let t = (breakpoint env p s).1 in
    elim (breakpoint-books env p s) [
      | inl e ↦ (rw e w, IsUnique-same s t e v)
      | inr (d, e) ↦
          (rw e (IsMap-put p.file _ s.breakpoints w), IsUnique-put p.file p.line s t d e v)
    ]
