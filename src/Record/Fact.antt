-- ===== src/Record/Fact.antt =====
-- record_set_fact of src/memory/record.c.
use aegisdb.Prelude.{ℕ, Option, none, some, [], ◌∷◌, ◌==◌, if◌then◌else◌, not}
use aegisdb.Record.{
  CString, FactValue, no_fact, fact_none, fact_obj_id, fact_obj_string, is_object_kind,
}

-- What the fact becomes, or `none` where the call is refused and the old fact stays. `predicate`
-- is NULL or empty in the first two refusals.
fact_of : ℕ → ℕ → CString → ℕ → Option CString → Option FactValue
fact_of kind subject [] object_id object_str = none
fact_of kind subject (c ∷ cs) object_id none =
    if kind == fact_obj_string
    then none
    else some (record {
      kind = kind;
      subject = subject;
      predicate = some (c ∷ cs);
      object_id = if kind == fact_obj_id then object_id else 0;
      object_str = none;
    })
fact_of kind subject (c ∷ cs) object_id (some s) = some (record {
  kind = kind;
  subject = subject;
  predicate = some (c ∷ cs);
  object_id = if kind == fact_obj_id then object_id else 0;
  object_str = if kind == fact_obj_string then some s else none;
})

unfoldable pub set_fact :
    (kind subject : ℕ) (predicate : Option CString) (object_id : ℕ) (object_str : Option CString)
    → Option FactValue
unfolding fact_of
set_fact kind subject predicate object_id object_str =
    if kind == fact_none
    then some no_fact
    else if not (is_object_kind kind)
    then none
    else elim predicate [ none ↦ none | some p ↦ fact_of kind subject p object_id object_str ]
