-- ===== src/Text/Brackets/Rounded.antt =====
-- Names without brackets, and the round brackets of the text of types.
use warpcoil.Base.{ℕ, sym, subst, List, [], ◌∷◌, false, All}
use warpcoil.Types.Syntax.{Parameter, WireType, get_parameter_type}
use warpcoil.Generated.Interface.{InterfaceDefinition}
use warpcoil.Text.{Text, own, Print}
use warpcoil.Text.Types.{generate_type, parser_type_text}
use warpcoil.Text.Brackets.{IsPlain}
use warpcoil.Text.Brackets.Definitions.{IsPlainType, IsPlainType-HasPlainNames, ArePlainTypes}
use warpcoil.Text.Brackets.Methods.{HavePlainParameters, type-Turns, IsPlainInterface}
use warpcoil.Text.Brackets.Round.{IsRoundBalanced, IsBalanced-round}
use warpcoil.Text.Brackets.Turns.{Turns, TurnsIn, further_out}
use warpcoil.Text.Brackets.Types.{parser_type_text-IsBalanced}
use warpcoil.Types.Clone.{declared, get_parameter_type-declared}

-- The names of the methods, their parameters and the members of structures in their types, at any
-- depth, hold no bracket.
abbrev pub ArePlainParameters : List Parameter → Type 0
ArePlainParameters [] = Unit {0}
ArePlainParameters (p ∷ ps) = All IsPlain p.name × IsPlainType p.type_ × ArePlainParameters ps

abbrev pub ArePlainMethods : InterfaceDefinition → Type 0
ArePlainMethods [] = Unit {0}
ArePlainMethods ((name, method) ∷ methods) =
    All IsPlain name
    × ArePlainParameters method.parameters
    × IsPlainType method.result
    × ArePlainMethods methods

pub ArePlainParameters-HavePlainParameters :
    (ps : List Parameter) → ArePlainParameters ps → HavePlainParameters ps
ArePlainParameters-HavePlainParameters [] h = tt
ArePlainParameters-HavePlainParameters (p ∷ ps) h =
    (h.0, IsPlainType-HasPlainNames p.type_ h.1, ArePlainParameters-HavePlainParameters ps h.2)

-- What closes all brackets closes the round ones, within any others.
pub round-Turns : {p : Print} (a : List ℕ) → Turns own p [] [] → TurnsIn false own p a a
round-Turns {p = p} a h =
    further_out p a
      (record { turned = λ out. let (x, e, f) = h.turned out in (x, e, IsBalanced-round x f) })

pub ArePlainMethods-IsPlainInterface :
    (methods : InterfaceDefinition) → ArePlainMethods methods → IsPlainInterface methods
ArePlainMethods-IsPlainInterface [] h = tt
ArePlainMethods-IsPlainInterface ((name, method) ∷ methods) h = (
  h.0,
  ArePlainParameters-HavePlainParameters method.parameters h.1,
  IsPlainType-HasPlainNames method.result h.2,
  ArePlainMethods-IsPlainInterface methods h.3,
)

declared-ArePlainTypes : (ps : List Parameter) → ArePlainParameters ps → ArePlainTypes (declared ps)
declared-ArePlainTypes [] h = tt
declared-ArePlainTypes (p ∷ ps) h = (h.1, declared-ArePlainTypes ps h.2)

pub parameter_type-IsPlainType :
    (ps : List Parameter) → ArePlainParameters ps → IsPlainType (get_parameter_type ps)
parameter_type-IsPlainType ps h =
    subst IsPlainType (sym (get_parameter_type-declared ps)) (declared-ArePlainTypes ps h)

module _ (lexical_cast : ℕ → Text) (m_indentation : ℕ) where
  pub round_type :
      (t : WireType) (a : List ℕ)
      → IsPlainType t
      → TurnsIn false own (generate_type lexical_cast m_indentation own t) a a
  round_type t a h =
      round-Turns a (type-Turns lexical_cast m_indentation t [] (IsPlainType-HasPlainNames t h))

  pub parser_type-round : (t : WireType) → IsPlainType t → IsRoundBalanced (parser_type_text t)
  parser_type-round t h =
      IsBalanced-round (parser_type_text t)
        (parser_type_text-IsBalanced t (IsPlainType-HasPlainNames t h))
