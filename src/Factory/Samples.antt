-- ===== src/Factory/Samples.antt =====
-- Runs of core/agent/factory.py.
use kuva_ai.Prelude.{
  ◌≡◌, refl, String, true, Option, none, some, [], ◌∷◌, all, contains, ◌==◌, if◌then◌else◌,
}
use kuva_ai.Dict.{Dict, lookup, insert}
use kuva_ai.Exec.{ok}
use kuva_ai.Factory.{AgentClass, Arguments, Outside, new_factory, default_config}
use kuva_ai.Factory.Graph.{
  add_all, empty_graph, get_dependencies, get_dependents, is_added, add_all-converse,
}
use kuva_ai.Factory.Config.{initialize, update, load_all}
use kuva_ai.Factory.Create.{create_all}
use kuva_ai.Factory.Merge.{last_loaded, load_all-priority}
use kuva_ai.Factory.Never.{is_error}
use kuva_ai.Factory.Start.{create_all-never}

abbrev planner : AgentClass
planner = record { name = "Planner"; is_agent = true; dependencies = ("memory", "Memory") ∷ [] }

abbrev memory : AgentClass
memory = record { name = "Memory"; is_agent = true; dependencies = [] }

abbrev loads : String → String → Option (Dict String)
loads n source =
    if n == "vault"
    then some (("level", "debug") ∷ [])
    else if n == "env"
    then some (("level", "info") ∷ ("agent_id", "a1") ∷ [])
    else none

abbrev world : Outside
world = record {
  load = loads;
  validate = λ t d. some (record { fields = d; sources = ("memory", "here") ∷ [] });
  constructs = λ t c d. true;
  modules = λ path. some (planner ∷ memory ∷ []);
  can_hash = λ c. true;
  same_call = λ a b. a.agent_type == b.agent_type;
}

abbrev plain : String → Arguments
plain t = record { agent_type = t; config = none; config_source = none; dependencies = none }

create_all-never_example :
    all is_error
      (create_all world 5
        (plain "Memory" ∷ plain "Planner" ∷ plain "Memory" ∷ [])
        (initialize world default_config new_factory).1).0
    ≡ true
create_all-never_example =
    create_all-never world default_config 5 (plain "Memory" ∷ plain "Planner" ∷ plain "Memory" ∷ [])

-- "vault" comes first in the priority, and the value is that of "env".
merged :
    load_all world ("vault" ∷ "env" ∷ []) ("vault" ∷ "consul" ∷ "env" ∷ []) true "source" []
    ≡ ok (("level", "info") ∷ ("agent_id", "a1") ∷ [])
unfolding load_all update insert
merged = refl

load_all-priority_example :
    lookup "level" (("level", "info") ∷ ("agent_id", "a1") ∷ [])
    ≡ last_loaded world "source" "level" ("vault" ∷ "env" ∷ []) ("vault" ∷ "consul" ∷ "env" ∷ [])
load_all-priority_example =
    load_all-priority world "source" "level" ("vault" ∷ "env" ∷ [])
      ("vault" ∷ "consul" ∷ "env" ∷ []) true (("level", "info") ∷ ("agent_id", "a1") ∷ []) merged

add_all-converse_example :
    (contains "b" (get_dependencies "a" (add_all (("a", "b") ∷ ("c", "b") ∷ []) empty_graph))
      ≡ is_added "a" "b" (("a", "b") ∷ ("c", "b") ∷ []))
    × (contains "a" (get_dependents "b" (add_all (("a", "b") ∷ ("c", "b") ∷ []) empty_graph))
        ≡ is_added "a" "b" (("a", "b") ∷ ("c", "b") ∷ []))
add_all-converse_example = add_all-converse (("a", "b") ∷ ("c", "b") ∷ []) "a" "b"
