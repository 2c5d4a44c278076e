-- ===== src/Javascript/Serving.antt =====
-- A request of the C++ client, as the input receiver of the script takes it.
use warpcoil.Base.{List}
use warpcoil.Types.Syntax.{Parameter, get_parameter_type, parameter_types}
use warpcoil.Wire.Values.{ValueOf}
use warpcoil.Wire.Conforms.{Conforms}
use warpcoil.Client.{Client}
use warpcoil.Javascript.Values.{Values}
use warpcoil.Javascript.Representation.{items_in_script}
use warpcoil.Javascript.Peer.{Peer}

-- The elements of the tuple in which the arguments travel.
unfoldable pub arguments_in_script :
    (ps : List Parameter) → ValueOf (get_parameter_type ps) → Values
unfolding get_parameter_type
arguments_in_script ps v = items_in_script (parameter_types ps) v
