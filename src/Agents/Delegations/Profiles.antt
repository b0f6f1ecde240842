-- ===== src/Agents/Delegations/Profiles.antt =====
-- The closed profiles of the specialists: src/hive/agents/profiles.py. A set of tools or roles is the
-- list of its members in the order of `sorted`.
use hive_os.Base.{
  ℕ, String, Bool, true, false, Option, none, some, List, [], ◌∷◌, if◌then◌else◌, str_eq, strip,
}
use hive_os.Dict.{Dict, get}

pub record SpecialistProfile : Type 0 where
  pub name : String
  pub read_only : Bool
  pub max_attempts : ℕ
  pub allowed_tools : List String
  pub requires_independent_review : Bool
  pub allowed_child_roles : List String
  pub max_delegation_depth : ℕ
  pub max_children : ℕ
  pub max_worker_turns : ℕ
  pub max_worker_tool_calls : ℕ
  pub max_worker_seconds : ℕ
  pub max_branch_turns : ℕ
  pub max_branch_tool_calls : ℕ
  pub max_branch_seconds : ℕ
  pub max_active_children : ℕ

unfoldable pub read_only_tools : List String
read_only_tools =
    "discover" ∷ "github_get_issue" ∷ "github_get_pr" ∷ "github_list_commits" ∷ "github_list_issues"
    ∷ "github_list_prs" ∷ "hive_status" ∷ "obsidian_list" ∷ "obsidian_read" ∷ "obsidian_search"
    ∷ "query_memory" ∷ "read_file" ∷ "search_code" ∷ "web_get" ∷ []

-- _READ_ONLY_TOOLS | {"remember_memory"}
unfoldable pub keeper_tools : List String
keeper_tools =
    "discover" ∷ "github_get_issue" ∷ "github_get_pr" ∷ "github_list_commits" ∷ "github_list_issues"
    ∷ "github_list_prs" ∷ "hive_status" ∷ "obsidian_list" ∷ "obsidian_read" ∷ "obsidian_search"
    ∷ "query_memory" ∷ "read_file" ∷ "remember_memory" ∷ "search_code" ∷ "web_get" ∷ []

-- _READ_ONLY_TOOLS | {"propose_candidate_file"}
unfoldable pub coder_tools : List String
coder_tools =
    "discover" ∷ "github_get_issue" ∷ "github_get_pr" ∷ "github_list_commits" ∷ "github_list_issues"
    ∷ "github_list_prs" ∷ "hive_status" ∷ "obsidian_list" ∷ "obsidian_read" ∷ "obsidian_search"
    ∷ "propose_candidate_file" ∷ "query_memory" ∷ "read_file" ∷ "search_code" ∷ "web_get" ∷ []

-- _READ_ONLY_TOOLS | {"delegate_to_specialist"}
unfoldable pub coordinator_tools : List String
unfolding read_only_tools
coordinator_tools = "delegate_to_specialist" ∷ read_only_tools

-- The defaults of the dataclass.
unfoldable pub leaf : String → Bool → List String → Bool → SpecialistProfile
leaf name read_only tools review = record {
  name = name;
  read_only = read_only;
  max_attempts = 2;
  allowed_tools = tools;
  requires_independent_review = review;
  allowed_child_roles = [];
  max_delegation_depth = 0;
  max_children = 0;
  max_worker_turns = 2;
  max_worker_tool_calls = 2;
  max_worker_seconds = 30;
  max_branch_turns = 0;
  max_branch_tool_calls = 0;
  max_branch_seconds = 0;
  max_active_children = 0;
}

unfoldable pub coordinator : SpecialistProfile
unfolding coordinator_tools
coordinator = record {
  name = "coordinator";
  read_only = true;
  max_attempts = 1;
  allowed_tools = coordinator_tools;
  requires_independent_review = false;
  allowed_child_roles =
      "coder" ∷ "memory-keeper" ∷ "researcher" ∷ "reviewer" ∷ "security-reviewer" ∷ [];
  max_delegation_depth = 1;
  max_children = 3;
  max_worker_turns = 4;
  max_worker_tool_calls = 4;
  max_worker_seconds = 20;
  max_branch_turns = 10;
  max_branch_tool_calls = 10;
  max_branch_seconds = 110;
  max_active_children = 1;
}

-- None where the call raises a ValueError.
module _ (casefold : String → String) where
  unfoldable pub specialist_profile : String → Option SpecialistProfile
  unfolding strip leaf coordinator read_only_tools keeper_tools coder_tools
  specialist_profile name =
      let normalized = casefold (strip name) in
      if str_eq normalized "researcher"
      then some (leaf "researcher" true read_only_tools false)
      else if str_eq normalized "reviewer"
      then some (leaf "reviewer" true read_only_tools false)
      else if str_eq normalized "security-reviewer"
      then some (leaf "security-reviewer" true read_only_tools false)
      else if str_eq normalized "memory-keeper"
      then some (leaf "memory-keeper" false keeper_tools false)
      else if str_eq normalized "coder"
      then some (leaf "coder" true coder_tools true)
      else if str_eq normalized "coordinator"
      then some coordinator
      else none

  unfoldable pub pick {ℓ} : {V : Type ℓ} → List String → Dict V → Dict V
  unfolding get
  pick [] tools = []
  pick (name ∷ names) tools =
      let rest = pick names tools in
      elim (get name tools) [ none ↦ rest | some t ↦ (name, t) ∷ rest ]

  -- None where the call raises a ValueError.
  unfoldable pub scoped_specialist_tools {ℓ} : {V : Type ℓ} → String → Dict V → Option (Dict V)
  unfolding pick
  scoped_specialist_tools role tools = elim (specialist_profile role) [
    | none ↦ none
    | some profile ↦ some (pick profile.allowed_tools tools)
  ]
