-- ===== src/Main.antt =====
-- main.go: what the flags and the environment decide before the server runs, and its end. The files
-- are in one directory, so they are given by their names; names are code points.
pub mod Names
use mcp_dap_server_k8s_forwa.Prelude.{
  ℕ, String, Bool, true, false, List, [], ◌∷◌, ◌++◌, ◌&&◌, not, Option, none, some, any, keep,
  if◌then◌else◌, str_eq,
}
use mcp_dap_server_k8s_forwa.Text.{Text, codes, eqb_text}
use mcp_dap_server_k8s_forwa.Text.Decimal.{decimal}
use mcp_dap_server_k8s_forwa.Session.{Session}
use mcp_dap_server_k8s_forwa.Session.Lifecycle.{register_tools, cleanup}

pub record Flags : Type 0 where
  pub connect : String
  pub version : Bool

-- The environment variables that are read, the number of the process, and whether the system opens
-- the log file, removes the old link and makes the new one.
pub record Environment : Type 0 where
  pub dap_connect_addr : String
  pub dlv_namespace : Text
  pub dlv_service : Text
  pub pid : ℕ
  pub log_opens : Bool
  pub removes : Bool
  pub links : Bool

-- `if addr == "" { addr = os.Getenv("DAP_CONNECT_ADDR") }`
unfoldable pub connect_addr : Flags → Environment → String
connect_addr f e = if str_eq f.connect "" then e.dap_connect_addr else f.connect

-- The tag of the target.
unfoldable pub target_tag : Text → Text → Text
target_tag [] svc = []
target_tag (c ∷ ns) [] = []
target_tag (c ∷ ns) (d ∷ svc) = ((c ∷ ns) ++ codes "-") ++ ((d ∷ svc) ++ codes ".")

-- `fmt.Sprintf("mcp-dap-server.%s%d.log", tag, os.Getpid())`
unfoldable pub log_name : Text → ℕ → Text
log_name tag pid = (codes "mcp-dap-server." ++ tag) ++ (decimal pid ++ codes ".log")

-- `fmt.Sprintf("mcp-dap-server.%slatest.log", tag)`
unfoldable pub latest_name : Text → Text
latest_name tag = codes "mcp-dap-server." ++ (tag ++ codes "latest.log")

-- The prefix of a line of the log.
unfoldable pub log_prefix : ℕ → String → Text
log_prefix pid addr =
    codes "[pid="
    ++ (decimal pid
        ++ ((if str_eq addr "" then [] else codes " addr=" ++ codes addr) ++ codes "] "))

-- The links in the directory, by name.
abbrev pub Links : Type 0
Links = List (Text × Text)

abbrev pub has_link : Text → Links → Bool
has_link name = any (λ l. eqb_text l.0 name)

-- `os.Remove(latestPath)`
unfoldable pub remove_link : Text → Links → Links
remove_link name = keep (λ l. not (eqb_text l.0 name))

-- The removal, whose error is ignored, and `os.Symlink`, which refuses a name that exists.
unfoldable pub link_latest : Environment → Text → Text → Links → Links
unfolding remove_link
link_latest e latest log links =
    let rest = if e.removes then remove_link latest links else links in
    if e.links && not (has_link latest rest) then (latest, log) ∷ rest else rest

-- The running server: whether it logs to `io.Discard`, the name of its log, its prefix, and its
-- session.
pub record Server : Type 0 where
  pub discards : Bool
  pub log : Text
  pub prefix : Text
  pub session : Session

pub data Outcome : Type 0 where
  prints_version : Outcome
  serves : Server → Outcome

unfoldable pub serve : Environment → Text → String → Server
unfolding log_name log_prefix register_tools
serve e tag addr = record {
  discards = if e.log_opens then false else true;
  log = log_name tag e.pid;
  prefix = log_prefix e.pid addr;
  session = register_tools addr;
}

-- `main`, up to the run of the server, with the links that it leaves.
unfoldable pub main : Flags → Environment → Links → Outcome × Links
unfolding serve connect_addr target_tag link_latest latest_name log_name
main f e links =
    let tag = target_tag e.dlv_namespace e.dlv_service in
    if f.version then (prints_version, links) else (
      serves (serve e tag (connect_addr f e)),
      link_latest e (latest_name tag) (log_name tag e.pid) links,
    )

-- The session when the process ends: `log.Fatalf` on an error of `server.Run` does not run the
-- deferred `ds.cleanup`.
unfoldable pub run_ended : Option String → Session → Session
unfolding cleanup
run_ended none s = cleanup s
run_ended (some error) s = s
