-- ===== src/Text/Interfaces.antt =====
-- The text of interfaces: warpcoil/cpp/generate/generate_parameters.hpp, generate_interface.hpp and
-- generate_type_eraser.hpp. `code` is the own sink.
use warpcoil.Base.{ℕ, List, [], ◌∷◌, codes}
use warpcoil.Types.Syntax.{Parameter}
use warpcoil.Generated.Interface.{InterfaceDefinition, Method}
use warpcoil.Text.{Text, own, Print, append_to, in_order, start_line, block, render}
use warpcoil.Text.Types.{generate_type}

module _ (lexical_cast : ℕ → Text) (m_indentation : ℕ) where
  -- What `generate_parameters` prints.
  unfoldable pub print_parameters : List Parameter → Print
  print_parameters [] = in_order []
  print_parameters (param ∷ parameters) = in_order (
      generate_type lexical_cast m_indentation own param.type_
      ∷ append_to own (codes " ")
      ∷ append_to own param.name
      ∷ append_to own (codes ", ")
      ∷ print_parameters parameters
      ∷ [])

  -- From the name of a method to the name of its last parameter.
  unfoldable pub method_head : Text → Method → Print
  unfolding print_parameters
  method_head name method = in_order (
      append_to own name
      ∷ append_to own (codes "(")
      ∷ print_parameters method.parameters
      ∷ append_to own (codes "std::function<void(Si::error_or<")
      ∷ generate_type lexical_cast m_indentation own method.result
      ∷ [])

  -- The loop of `generate_interface`.
  unfoldable pub interface_methods : InterfaceDefinition → ℕ → Print
  unfolding method_head
  interface_methods [] in_class = in_order []
  interface_methods ((name, method) ∷ methods) in_class = in_order (
      render own in_class
      ∷ append_to own (codes "virtual void ")
      ∷ method_head name method
      ∷ append_to own (codes ">)> on_result) = 0;\n")
      ∷ interface_methods methods in_class
      ∷ [])

  unfoldable pub generate_interface :
      (indentation : ℕ) → (name : Text) → InterfaceDefinition → Print
  unfolding interface_methods
  generate_interface indentation name definition = in_order (
      append_to own (codes "struct async_")
      ∷ append_to own name
      ∷ append_to own (codes "\n")
      ∷ block own indentation
          (λ in_class. in_order (
            render own in_class
            ∷ append_to own (codes "virtual ~async_")
            ∷ append_to own name
            ∷ append_to own (codes "() {}\n\n")
            ∷ interface_methods definition in_class
            ∷ []))
          (codes ";\n\n")
      ∷ [])

  -- The arguments of the forwarded call.
  unfoldable pub moved_parameters : List Parameter → Print
  moved_parameters [] = in_order []
  moved_parameters (parameter ∷ parameters) = in_order (
      append_to own (codes "std::move(")
      ∷ append_to own parameter.name
      ∷ append_to own (codes "), ")
      ∷ moved_parameters parameters
      ∷ [])

  unfoldable pub forwarded_call : Text → Method → ℕ → Print
  unfolding moved_parameters
  forwarded_call name method in_method = in_order (
      start_line own in_method (codes "return client." ∷ name ∷ codes "(" ∷ [])
      ∷ moved_parameters method.parameters
      ∷ append_to own (codes "std::move(on_result));\n")
      ∷ [])

  -- The loop of `generate_type_eraser`.
  unfoldable pub erased_methods : InterfaceDefinition → ℕ → Print
  unfolding method_head forwarded_call
  erased_methods [] in_class = in_order []
  erased_methods ((name, method) ∷ methods) in_class = in_order (
      render own in_class
      ∷ append_to own (codes "void ")
      ∷ method_head name method
      ∷ append_to own (codes ">)> on_result) override\n")
      ∷ block own in_class (forwarded_call name method) (codes "\n\n")
      ∷ erased_methods methods in_class
      ∷ [])

  unfoldable pub generate_type_eraser :
      (indentation : ℕ) → (name : Text) → InterfaceDefinition → Print
  unfolding erased_methods
  generate_type_eraser indentation name definition = in_order (
      start_line own indentation (codes "template <class Client>\n" ∷ [])
      ∷ append_to own (codes "struct async_type_erased_")
      ∷ append_to own name
      ∷ append_to own (codes " : async_")
      ∷ append_to own name
      ∷ append_to own (codes "\n")
      ∷ block own indentation
          (λ in_class. in_order (
            start_line own indentation (codes "Client &client;\n\n" ∷ [])
            ∷ start_line own indentation (codes "explicit " ∷ [])
            ∷ append_to own (codes "async_type_erased_")
            ∷ append_to own name
            ∷ append_to own (codes "(Client &client) : client(client) {}\n\n")
            ∷ erased_methods definition in_class
            ∷ []))
          (codes ";\n\n")
      ∷ [])
