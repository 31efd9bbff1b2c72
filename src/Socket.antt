-- ===== src/Socket.antt =====
-- What a WebSocket of the tungstenite crate gives its reader, as the worker and the command line
-- read it: an error, a close or the end of the stream, or a message with its text or the error of that. `T` is the type of
-- the texts, which only `WireMessage::from_text` looks into.
use multinode_controller.Base.{Text, Result}

pub data Incoming (T : Type 0) : Type 0 where
  fault : Text → Incoming T
  closing : Incoming T
  frame : Result T → Incoming T
