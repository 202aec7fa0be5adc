-- ===== src/Prompts.antt =====
-- prompts.go: the workflow prompts of the MCP server. A document is a list of lines, and a line is a list
-- of the pieces that `fmt.Sprintf` puts together.
pub mod Source
pub mod Attach
pub mod CoreDump
pub mod BinaryLevel
pub mod Working
use Prim.Native.String
use mcp_dap_server_k8s_forwa.Prelude.{
  List, [], ◌∷◌, String, Bool, true, false, ◌||◌, if◌then◌else◌, str_eq,
}

abbrev pub Document : Type 0
Document = List (List String)

abbrev joined : List String → String
joined [] = ""
joined (x ∷ xs) = String.◌++◌ x (joined xs)

-- The text of a document: its lines with a newline between two of them.
unfoldable pub text_of : Document → String
text_of [] = ""
text_of (line ∷ []) = joined line
text_of (line ∷ next ∷ lines) =
    String.◌++◌ (joined line) (String.◌++◌ "\n" (text_of (next ∷ lines)))

-- `req.Params.Arguments`: a missing argument is the empty string.
abbrev pub Arguments : Type 0
Arguments = String → String

pub record PromptResult : Type 0 where
  pub description : String
  pub content : String

abbrev pub described : String → String → String
described what about = String.◌++◌ what about

-- `language == "c" || language == "cpp"`
unfoldable pub is_c_family : String → Bool
is_c_family language = str_eq language "c" || str_eq language "cpp"

unfoldable pub language_or_go : String → String
language_or_go language = if str_eq language "" then "go" else language

-- The debugger and the mode that a prompt recommends.
unfoldable pub debugger_for : Bool → String
debugger_for c_family = if c_family then "gdb" else "delve"

unfoldable pub mode_for : Bool → String
mode_for c_family = if c_family then "binary" else "source"

-- `registerPrompts`: a prompt with its arguments, and whether each is required.
pub record Prompt : Type 0 where
  pub name : String
  pub arguments : List (String × Bool)

unfoldable pub registered_prompts : List Prompt
registered_prompts =
    record {
      name = "debug-source";
      arguments = ("path", true) ∷ ("language", false) ∷ ("breakpoints", false) ∷ [];
    }
    ∷ record { name = "debug-attach"; arguments = ("pid", true) ∷ ("program", false) ∷ [] }
    ∷ record {
      name = "debug-core-dump";
      arguments = ("binary_path", true) ∷ ("core_path", true) ∷ ("language", false) ∷ [];
    }
    ∷ record { name = "debug-binary"; arguments = ("path", true) ∷ [] }
    ∷ []
