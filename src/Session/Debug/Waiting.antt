-- ===== src/Session/Debug/Waiting.antt =====
-- The wait of `debug` for the first breakpoint.
use mcp_dap_server_k8s_forwa.Prelude.{
  ℕ, ℤ, ◌≡◌, refl, sym, ap, ◌∙◌, String, false, List, [], ◌∷◌, ◌++◌, append_assoc, append-nil, map,
  none, some, if_false, str_eq,
}
use mcp_dap_server_k8s_forwa.Dap.Request
use mcp_dap_server_k8s_forwa.Dap.Request.{Command}
use mcp_dap_server_k8s_forwa.Dap.Client.{Client, new_request, send_and_register, raw_send}
use mcp_dap_server_k8s_forwa.Dap.Methods.{Sent, request, continue_request}
use mcp_dap_server_k8s_forwa.Session.{Session, Env, ok, Tool, ◌>>◌}
use mcp_dap_server_k8s_forwa.Session.Steps.{bind-ok}
use mcp_dap_server_k8s_forwa.Session.Calls.{commands, request-Sends}
use mcp_dap_server_k8s_forwa.Session.Debug.{
  Arrival, stop_event, sent_result, send_only, note_stop, wait_loop,
}

-- A client on a healthy connection.
abbrev Healthy : Session → Type 0
Healthy s = (c : Client) × (s.client ≡ some c) × (c.stale ≡ false)

request-healthy :
    (cmd : Command) (c : Client)
    → c.stale ≡ false
    → ((request cmd none c).0.1 ≡ none) × ((request cmd none c).1.stale ≡ false)
unfolding request new_request send_and_register raw_send
request-healthy cmd c e = simp e (refl, refl)

sent_result-ok : (x : Sent) → x.0.1 ≡ none → sent_result x ≡ ok tt
sent_result-ok ((n, none), c) h = refl
sent_result-ok ((n, some e), c) h = absurd (cc h)

send_only-Healthy :
    (env : Env) (cmd : Command) (s : Session)
    → ((n : ℕ) → env.written n ≡ none)
    → Healthy s
    → ((send_only env (request cmd) s).0 ≡ ok tt)
      × (commands (send_only env (request cmd) s).1 ≡ commands s ++ (cmd ∷ []))
      × Healthy (send_only env (request cmd) s).1
unfolding send_only
send_only-Healthy env cmd s w (c, e, h) =
    let (a, b) = request-healthy cmd c h in
    let k = request-Sends cmd none c a in
    rw (e, w c.seq) (sent_result-ok (request cmd none c) a, k, (_, refl, b))

abbrev pub entry_stop : ℤ → Arrival
entry_stop thread = stop_event "entry" thread

-- The loop comes to the first stop that is not one on entry, whatever comes behind it: it returns that
-- stop's thread, which the session then has as its stopped thread, and has sent one `continue` for each stop
-- on entry before it, in order, when the connection is healthy and every write succeeds.
pub wait_loop-stops :
    (env : Env) (entries : List ℤ) (reason : String) (thread : ℤ) (rest : List Arrival)
    (s : Session) (c : Client)
    → s.client ≡ some c
    → c.stale ≡ false
    → ((n : ℕ) → env.written n ≡ none)
    → str_eq reason "entry" ≡ false
    → let r = wait_loop env (map entry_stop entries ++ stop_event reason thread ∷ rest) s in
      (r.0 ≡ ok thread)
      × (commands r.1 ≡ commands s ++ map Request.continues entries)
      × (r.1.stopped_thread_id ≡ thread)
unfolding wait_loop continue_request
wait_loop-stops env [] reason thread rest s c e h w k =
    let q =
      ap (λ (m : Tool ℤ). m s)
        (if_false (send_only env (continue_request thread) >> wait_loop env rest)
          (note_stop env thread) k) in
    rw q (refl, sym (append-nil (commands s)), refl)
wait_loop-stops env (t ∷ entries) reason thread rest s c e h w k =
    let m = send_only env (request (Request.continues t)) in
    let (a, b, (d, f, g)) = send_only-Healthy env (Request.continues t) s w (c, e, h) in
    let later = map entry_stop entries ++ stop_event reason thread ∷ rest in
    let (x, y, z) = wait_loop-stops env entries reason thread rest (m s).1 d f g w k in
    rw (bind-ok m (λ _. wait_loop env later) s tt a)
      (x, y ∙ ap (λ xs. xs ++ map Request.continues entries) b ∙ append_assoc (commands s) _ _, z)
