-- ===== src/Main/Receive/Messages.antt =====
-- The messages that `on_can_receive` takes out of the mailboxes.
use cannelloni_tms.Prelude.{List, [], ◌∷◌}
use cannelloni_tms.Cannelloni.Frame.{Frame}
use cannelloni_tms.Can.Controller.{Controller}
use cannelloni_tms.Can.Messages.{Message, CarriesMessage}

-- The frames carry the messages, one each, in order.
abbrev pub CarryAll : List Message → List Frame → Type 0
CarryAll [] [] = Unit {0}
CarryAll [] (f ∷ fs) = ⊥
CarryAll (m ∷ ms) [] = ⊥
CarryAll (m ∷ ms) (f ∷ fs) = CarriesMessage m f.can_id f.len f.payload × CarryAll ms fs
