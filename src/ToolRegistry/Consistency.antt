-- ===== src/ToolRegistry/Consistency.antt =====
-- What registration and resolution promise.
use mr_enderson.Base.{
  ◌≡◌, refl, sym, ap, ◌∙◌, ◌↔◌, ◌⊎◌, inl, inr, String, Bool, true, false, ◌&&◌, not, none, some, [],
  ◌∷◌, arith, ◌==◌, string_eq, ==-refl, ==-cases, ok, raise, contains, lookup, insert, erase,
  IsKeyed, insert-IsKeyed, erase-IsKeyed, lookup-insert_self, lookup-insert_ne, lookup-erase_self,
  lookup-erase_ne,
}
use mr_enderson.ToolRegistry.Operations.{
  ToolDefinition, Tools, well_formed, validate_definition, has_tool, register, unregister, get_tool,
  resolve, unknown_tool,
}

-- A tool resolves for a name and an action type exactly when it is the one registered under the
-- name, is enabled, and lists the action type.
pub resolve_iff :
    (tools : Tools) (name action_type : String) (tool : ToolDefinition)
    → (resolve tools name action_type ≡ ok tool) ↔ (
        (lookup name tools ≡ some tool)
        × (tool.enabled ≡ true)
        × (contains action_type tool.supported_action_types ≡ true))
unfolding resolve
resolve_iff tools name action_type tool = ground arith

-- A registry in which no name is registered twice, and every tool is well formed and stands
-- under its own name.
abbrev pub AllSound : Tools → Type 0
AllSound [] = Unit
AllSound ((name, tool) ∷ rest) = (name ≡ tool.name) × (well_formed tool ≡ true) × AllSound rest

pub record IsSound (tools : Tools) : Type 0 where
  pub keyed : IsKeyed tools
  pub sound : AllSound tools

insert-AllSound :
    (name : String) (tool : ToolDefinition) (tools : Tools)
    → name ≡ tool.name
    → well_formed tool ≡ true
    → AllSound tools
    → AllSound (insert name tool tools)
insert-AllSound name tool [] e h s = (e, h, tt)
insert-AllSound name tool ((key, other) ∷ rest) e h s = elim (==-cases name key) [
  | inl same ↦ rw (same, ==-refl key) (sym same ∙ e, h, s.2)
  | inr different ↦ rw different (s.0, s.1, insert-AllSound name tool rest e h s.2)
]

erase-AllSound : (name : String) (tools : Tools) → AllSound tools → AllSound (erase name tools)
erase-AllSound name [] s = tt
erase-AllSound name ((other, tool) ∷ rest) s = elim (==-cases name other) [
  | inl same ↦ rw (same, ==-refl other) s.2
  | inr different ↦ rw different (s.0, s.1, erase-AllSound name rest s.2)
]

register_inv :
    (tools tools' : Tools) (tool : ToolDefinition) (replace : Bool)
    → register tools tool replace ≡ ok tools'
    → (well_formed tool ≡ true)
      × ((has_tool tools tool.name && not replace) ≡ false)
      × (tools' ≡ insert tool.name tool tools)
unfolding register validate_definition
register_inv tools tools' tool replace h = ground arith

unregister_inv :
    (tools tools' : Tools) (name : String)
    → unregister tools name ≡ ok tools'
    → (has_tool tools name ≡ true) × (tools' ≡ erase name tools)
unfolding unregister
unregister_inv tools tools' name h = ground arith

-- Registering and unregistering keep the registry sound: one tool for a name, each well formed
-- and under its own name.
pub changes-IsSound :
    (tools tools' : Tools)
    → IsSound tools
    → ((tool : ToolDefinition) × (replace : Bool) × (register tools tool replace ≡ ok tools'))
      ⊎ ((name : String) × (unregister tools name ≡ ok tools'))
    → IsSound tools'
changes-IsSound tools tools' s (inl (tool, replace, e)) =
    let (good, _, same) = register_inv tools tools' tool replace e in
    rw same (record {
      keyed = insert-IsKeyed tool.name tool tools s.keyed;
      sound = insert-AllSound tool.name tool tools refl good s.sound;
    })
changes-IsSound tools tools' s (inr (name, e)) =
    let (_, same) = unregister_inv tools tools' name e in
    rw same (record {
      keyed = erase-IsKeyed name tools s.keyed;
      sound = erase-AllSound name tools s.sound;
    })

get-lookup :
    (a b : Tools) (name : String)
    → lookup name a ≡ lookup name b
    → get_tool a name ≡ get_tool b name
unfolding get_tool
get-lookup a b name e =
    ap (λ o. elim o [ none ↦ raise (unknown_tool name) | some tool ↦ ok tool ]) e

get-some :
    (a : Tools) (name : String) (tool : ToolDefinition)
    → lookup name a ≡ some tool
    → get_tool a name ≡ ok tool
unfolding get_tool
get-some a name tool e = rw (e, get_tool) refl

has-none : (a : Tools) (name : String) → lookup name a ≡ none → has_tool a name ≡ false
unfolding has_tool
has-none a name e = rw (e, has_tool) refl

-- After an accepted registration `get` finds the new tool under its name and every other name
-- finds what it found before; without `replace` the name was free. Unregistering it from a
-- sound registry then frees the name again.
pub registered_then_unregistered :
    (tools tools' tools'' : Tools) (tool : ToolDefinition) (replace : Bool)
    → IsSound tools
    → register tools tool replace ≡ ok tools'
    → unregister tools' tool.name ≡ ok tools''
    → (get_tool tools' tool.name ≡ ok tool)
      × ((name : String) → (name == tool.name) ≡ false → get_tool tools' name ≡ get_tool tools name)
      × ((replace ≡ false) → has_tool tools tool.name ≡ false)
      × (has_tool tools'' tool.name ≡ false)
      × ((name : String)
          → (name == tool.name) ≡ false
          → get_tool tools'' name ≡ get_tool tools name)
registered_then_unregistered tools tools' tools'' tool replace s e f =
    let (_, free, same) = register_inv tools tools' tool replace e in
    let (_, gone) = unregister_inv tools' tools'' tool.name f in
    let keyed : IsKeyed tools' = (changes-IsSound tools tools' s (inl (tool, replace, e))).keyed in
    let found : (name : String)
        → (name == tool.name) ≡ false
        → lookup name tools' ≡ lookup name tools =
      λ name other. rw same (lookup-insert_ne name tool.name tool tools other) in
    (
      get-some tools' tool.name tool (rw same (lookup-insert_self tool.name tool tools)),
      λ name other. get-lookup tools' tools name (found name other),
      λ fresh. ground (arith, free, fresh),
      has-none tools'' tool.name (rw gone (lookup-erase_self tool.name tools' keyed)),
      λ name other.
          get-lookup tools'' tools name
            (rw gone (lookup-erase_ne name tool.name tools' other) ∙ found name other),
    )
