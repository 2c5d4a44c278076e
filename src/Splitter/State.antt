-- ===== src/Splitter/State.antt =====
-- The state of a splitter, the parsers of headers, and what is logged.
use warpcoil.Base.{ℕ, Bool, false, List, [], ◌∷◌}
use warpcoil.Parse.Interface.{Parser}
use warpcoil.Parse.Integer.{IntegerState, integer_parser}
use warpcoil.Parse.Utf8.{utf8_parser}
use warpcoil.Parse.Tuple.{Tuple, tuple_parser}
use warpcoil.Receive.{ErrorCode}

-- `message_type`
abbrev pub message_request : ℕ
message_request = 0

abbrev pub message_response : ℕ
message_response = 1

-- A call of a handler.
pub data Delivery : Type 0 where
  request_received : (id : ℕ) → (name : List ℕ) → Delivery
  response_received : (id : ℕ) → Delivery
  request_failed response_failed : ErrorCode → Delivery

-- What follows a handler's return: the ends of the two header operations with `continue_`, and of
-- `on_error` after the first and after the second handler.
pub data Frame : Type 0 where
  after_request after_response : (continue_ : Bool) → Frame
  after_response_failed : (is_waiting_for_request : Bool) → ErrorCode → Frame
  after_request_failed : Frame

module _ (is_valid : List ℕ → Bool) where
  abbrev pub type_parser : Parser ℕ
  type_parser = integer_parser 1

  abbrev pub response_parser : Parser ℕ
  response_parser = integer_parser 8

  abbrev pub request_parser : Parser (Tuple (ℕ ∷ List ℕ ∷ []))
  request_parser =
      tuple_parser (ℕ ∷ List ℕ ∷ [])
        (integer_parser 8, (utf8_parser is_valid (integer_parser 1), tt))

  -- The parse operation that waits for a read of the stream.
  pub data Operation : Type 0 where
    no_operation : Operation
    parsing_type parsing_response : IntegerState → Operation
    parsing_request : request_parser.State → Operation

  pub record Splitter : Type 0 where
    pub buffer : List ℕ
    pub locked : Bool
    pub begin_parse_message : Bool
    pub waiting_for_request : Bool
    pub waiting_for_response : Bool
    pub parsing_header : Bool
    pub operation : Operation
    pub frames : List Frame
    pub delivered : List Delivery

abbrev pub new_splitter : (is_valid : List ℕ → Bool) → Splitter is_valid
new_splitter is_valid = record {
  buffer = [];
  locked = false;
  begin_parse_message = false;
  waiting_for_request = false;
  waiting_for_response = false;
  parsing_header = false;
  operation = no_operation;
  frames = [];
  delivered = [];
}
