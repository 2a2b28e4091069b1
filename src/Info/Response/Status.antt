-- ===== src/Info/Response/Status.antt =====
-- Whether a video may be played, and the message to the user, as src/dl.c asks src/info.c for them.
use libytdl.Base.{◌≡◌, Option, none, some, ◌>>=◌, Bytes, codes}
use libytdl.Info.Context.{Tree, InfoCtx, PlayabilityStatus, unknown}
use libytdl.Info.Response.{
  status_of, get_playability_status, text_of, first_text, get_playability_status_message,
}
use libytdl.Info.Response.Lookup.{last_of}

module _ (tree : Tree) where
  open tree use {json, members, elements, obj_get}

  -- The object that says whether the video may be played.
  abbrev pub playability : json.Value → Option json.Value
  playability response = last_of (codes "playabilityStatus") (members response) none

  abbrev pub status_text : Option json.Value → PlayabilityStatus
  status_text none = unknown
  status_text (some stat) = status_of tree stat

  abbrev pub message_text : Option json.Value → Option json.Value → Option Bytes
  message_text none reason = text_of tree reason
  message_text (some messages) reason = first_text tree (elements messages)

  abbrev pub message_in : Option json.Value → Option Bytes
  message_in none = none
  message_in (some ps) = message_text (obj_get ps (codes "messages")) (obj_get ps (codes "reason"))

  -- What is asked first, what is asked again, and the message that is asked for then.
  abbrev pub Answers : Option json.Value → PlayabilityStatus × InfoCtx tree → Type 0
  Answers m (status, info) =
      (status ≡ status_text (m >>= λ ps. obj_get ps (codes "status")))
      × ((get_playability_status tree info).0 ≡ status)
      × ((get_playability_status_message tree info).0 ≡ message_in m)
