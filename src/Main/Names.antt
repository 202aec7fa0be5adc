-- ===== src/Main/Names.antt =====
-- The names of the log files, and the address that is connected to.
use mcp_dap_server_k8s_forwa.Prelude.{
  ℕ, ◌≡◌, refl, sym, ap, ◌∙◌, [], ◌∷◌, ◌++◌, append_assoc, append-nil, if◌then◌else◌, ◌==◌,
}
use mathlib.Core.List.{append_cancel_right}
use mcp_dap_server_k8s_forwa.Text.{Text, codes}
use mcp_dap_server_k8s_forwa.Text.Decimal.{decimal, decimal-DotFree, decimal_inj, DotFree}
use mcp_dap_server_k8s_forwa.Main.{target_tag, log_name, latest_name}

-- What stands behind the last dot.
behind_dot : Text → Text → Text
behind_dot acc [] = acc
behind_dot acc (c ∷ s) = behind_dot (if c == b'.' then [] else acc ++ (c ∷ [])) s

behind_dot-DotFree : (d acc : Text) → DotFree d → behind_dot acc d ≡ acc ++ d
unfolding behind_dot
behind_dot-DotFree [] acc h = sym (append-nil acc)
behind_dot-DotFree (c ∷ d) acc (e, h) =
    rw e (behind_dot-DotFree d (acc ++ c ∷ []) h ∙ append_assoc acc (c ∷ []) d)

behind_dot-append : (xs acc d : Text) → DotFree d → behind_dot acc (xs ++ (b'.' ∷ d)) ≡ d
unfolding behind_dot
behind_dot-append [] acc d h = behind_dot-DotFree d [] h
behind_dot-append (x ∷ xs) acc d h = behind_dot-append xs _ d h

-- The name up to its ending is something, a dot, and the number of the process.
before_number :
    (ns svc : Text)
    → (xs : Text) × (codes "mcp-dap-server." ++ target_tag ns svc ≡ xs ++ (b'.' ∷ []))
unfolding target_tag
before_number [] svc = (codes "mcp-dap-server", refl)
before_number (c ∷ ns) [] = (codes "mcp-dap-server", refl)
before_number (c ∷ ns) (d ∷ svc) =
    (codes "mcp-dap-server." ++ (((c ∷ ns) ++ codes "-") ++ (d ∷ svc)), simp append_assoc)

numbered : Text → Text → ℕ → Text
numbered ns svc pid = (codes "mcp-dap-server." ++ target_tag ns svc) ++ decimal pid

behind_dot-numbered : (ns svc : Text) (pid : ℕ) → behind_dot [] (numbered ns svc pid) ≡ decimal pid
unfolding numbered
behind_dot-numbered ns svc pid =
    let (xs, e) = before_number ns svc in
    ap (λ t. behind_dot [] (t ++ decimal pid)) e
    ∙ (ap (behind_dot []) (append_assoc xs (b'.' ∷ []) (decimal pid))
        ∙ behind_dot-append xs [] (decimal pid) (decimal-DotFree pid))

-- Two processes never write to the same log file, whatever targets they are for: if the names are the same, so
-- are the process numbers.
pub log_name_inj :
    (ns svc ns' svc' : Text) (pid pid' : ℕ)
    → log_name (target_tag ns svc) pid ≡ log_name (target_tag ns' svc') pid'
    → pid ≡ pid'
unfolding log_name numbered
log_name_inj ns svc ns' svc' pid pid' h =
    let a =
      append_assoc (codes "mcp-dap-server." ++ target_tag ns svc) (decimal pid) (codes ".log") in
    let b =
      append_assoc (codes "mcp-dap-server." ++ target_tag ns' svc') (decimal pid') (codes ".log") in
    let e : numbered ns svc pid ≡ numbered ns' svc' pid' =
      append_cancel_right _ _ (codes ".log") (a ∙ (h ∙ sym b)) in
    decimal_inj pid pid' (
      sym (behind_dot-numbered ns svc pid)
      ∙ (ap (behind_dot []) e ∙ behind_dot-numbered ns' svc' pid'))

-- The namespace and the service are joined by a dash that both may contain. So two different targets can have
-- the same tag, and then the link to the latest log is shared: moving a part that ends in a dash from the front
-- of the service to the end of the namespace does not change it.
pub latest_name-moved :
    (a b c : ℕ) (ns part svc : Text)
    → latest_name (target_tag ((a ∷ ns) ++ (codes "-" ++ (b ∷ part))) (c ∷ svc))
      ≡ latest_name (target_tag (a ∷ ns) ((b ∷ part) ++ (codes "-" ++ (c ∷ svc))))
unfolding latest_name target_tag
latest_name-moved a b c ns part svc = simp append_assoc
