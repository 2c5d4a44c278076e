-- ===== src/Text/Brackets/Servers/Headers.antt =====
-- The brackets of the text of a server in front of the functions that receive arguments.
use warpcoil.Base.{ℕ, suc, refl, [], ◌∷◌, Bool, true, false, codes, All}
use warpcoil.Generated.Interface.{InterfaceDefinition}
use warpcoil.Text.{Text, own, Print, append_to, block}
use warpcoil.Text.Servers.Headers.{
  wrapped_end, print_serve_one_request, else_if, call_argument_receiver, print_dispatch,
  handle_header, receive_header, server_head,
}
use warpcoil.Text.Brackets.{IsPlain, scan_brackets}
use warpcoil.Text.Brackets.Round.{in_two, in_three}
use warpcoil.Text.Brackets.Turns.{
  TurnsIn, done, ◌&>◌, finished, further_out, literal, plain, render-Turns, chain-Turns,
  block-Turns, line-Turns,
}
use warpcoil.Text.Brackets.Rounded.{ArePlainMethods}

-- Behind `(`, `(`, in which a lambda is.
pub wrapped-Turns :
    (l : ℕ) (content : ℕ → Print)
    → TurnsIn false own (content (suc l)) [] []
    → TurnsIn false own (block own l content wrapped_end) in_two []
unfolding scan_brackets
wrapped-Turns l content h = chain-Turns _ in_two [] (
    render-Turns l in_two
    &> chain-Turns _ in_two [] (
        literal _ in_two (b'}' ∷ in_two) (λ rest opened. refl)
        &> further_out (content (suc l)) (b'}' ∷ in_two) h
        &> render-Turns l (b'}' ∷ in_two)
        &> literal _ (b'}' ∷ in_two) in_two (λ rest opened. refl)
        &> literal wrapped_end in_two [] (λ rest opened. refl)
        &> done)
    &> done)

serve-Turns : (l : ℕ) → TurnsIn false own (print_serve_one_request l) [] []
unfolding print_serve_one_request scan_brackets
serve-Turns l = chain-Turns _ [] [] (
    line-Turns l _ (λ rest opened. refl)
    &> line-Turns l _ (λ rest opened. refl)
    &> line-Turns l _ (λ rest opened. refl)
    &> line-Turns l _ (λ rest opened. refl)
    &> line-Turns l _ (λ rest opened. refl)
    &> done)

call-Turns :
    (name : Text) (l : ℕ)
    → All IsPlain name
    → TurnsIn false own (call_argument_receiver name l) [] []
unfolding call_argument_receiver scan_brackets
call-Turns name l h = chain-Turns _ [] [] (
    render-Turns l []
    &> literal _ [] [] (λ rest opened. refl)
    &> plain name [] h
    &> literal _ [] [] (λ rest opened. refl)
    &> done)

else_if-Turns : (first : Bool) → TurnsIn false own (append_to own (else_if first)) [] []
unfolding scan_brackets
else_if-Turns true = literal [] [] [] (λ rest opened. refl)
else_if-Turns false = literal _ [] [] (λ rest opened. refl)

dispatch-Turns :
    (first : Bool) (methods : InterfaceDefinition) (l : ℕ)
    → ArePlainMethods methods
    → TurnsIn false own (print_dispatch first methods l) [] []
unfolding print_dispatch scan_brackets
dispatch-Turns first [] l h = finished []
dispatch-Turns first ((name, method) ∷ methods) l h = chain-Turns _ [] [] (
    render-Turns l []
    &> else_if-Turns first
    &> literal (codes "if (boost::range::equal(std::get<1>(request.get()), Si::make_c_str_range(\"")
        [] in_three (λ rest opened. refl)
    &> plain name in_three h.0
    &> literal (codes "\")))\n") in_three [] (λ rest opened. refl)
    &> block-Turns l (call_argument_receiver name) (codes "\n") (call-Turns name (suc l) h.0)
        (λ rest opened. refl)
    &> dispatch-Turns false methods l h.3
    &> done)

header-Turns :
    (definition : InterfaceDefinition) (l : ℕ)
    → ArePlainMethods definition
    → TurnsIn false own (handle_header definition l) [] []
unfolding handle_header scan_brackets
header-Turns definition l h = chain-Turns _ [] [] (
    line-Turns l _ (λ rest opened. refl)
    &> dispatch-Turns true definition l h
    &> line-Turns l _ (λ rest opened. refl)
    &> done)

receive_header-Turns :
    (definition : InterfaceDefinition) (l : ℕ)
    → ArePlainMethods definition
    → TurnsIn false own (receive_header definition l) [] []
unfolding receive_header scan_brackets
receive_header-Turns definition l h = chain-Turns _ [] [] (
    chain-Turns _ [] in_two (render-Turns l [] &> literal _ [] in_two (λ rest opened. refl) &> done)
    &> wrapped-Turns l (handle_header definition) (header-Turns definition (suc l) h)
    &> done)

pub server_head-Turns :
    (name : Text) (definition : InterfaceDefinition) (indentation l : ℕ)
    → All IsPlain name
    → ArePlainMethods definition
    → TurnsIn false own (server_head name definition indentation l) [] []
unfolding server_head scan_brackets
server_head-Turns name definition indentation l h k = chain-Turns _ [] [] (
    line-Turns l _ (λ rest opened. refl)
    &> plain name [] h
    &> literal _ [] [] (λ rest opened. refl)
    &> line-Turns (suc l) _ (λ rest opened. refl)
    &> line-Turns l _ (λ rest opened. refl)
    &> line-Turns l _ (λ rest opened. refl)
    &> block-Turns l print_serve_one_request (codes "\n\n") (serve-Turns (suc l))
        (λ rest opened. refl)
    &> line-Turns indentation _ (λ rest opened. refl)
    &> line-Turns l _ (λ rest opened. refl)
    &> line-Turns l _ (λ rest opened. refl)
    &> line-Turns l _ (λ rest opened. refl)
    &> line-Turns l _ (λ rest opened. refl)
    &> line-Turns l _ (λ rest opened. refl)
    &> block-Turns l (receive_header definition) (codes "\n")
        (receive_header-Turns definition (suc l) k) (λ rest opened. refl)
    &> done)
