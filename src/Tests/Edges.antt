-- ===== src/Tests/Edges.antt =====
-- Labels, requests, the load test and the page.
use hypeha.Base.{
  ◌≡◌, refl, true, List, [], ◌∷◌, ◌++◌, Option, none, some, Text, codes, byte_to_lower,
}
use hypeha.SubKey.{SubKey, label, normalized, short_user}
use hypeha.SubKey.Label.{label_panics, is_none}
use hypeha.Entry.{Seq}
use hypeha.Hub.Registry.{holds_key}
use hypeha.Session.{ClientMessage, Method, handle_request}
use hypeha.Session.Panics.{unsubscribe_aborts}
use hypeha.Tests.Data.{two_at_most, hub}

-- Five letters, a letter of two bytes and five more letters: byte 6 is inside the sixth letter.
abbrev cut_user : Text
cut_user = codes "abcde" ++ (195 ∷ 169 ∷ codes "fghij")

label_panics_example : is_none (label (SubKey.order_updates cut_user)) ≡ true
label_panics_example = label_panics cut_user

abbrev no_ack : Method → SubKey → Option Text
no_ack method key = some (codes "ack")

abbrev wants_out : Text → Option ClientMessage
wants_out text = some (ClientMessage.unsubscribe (SubKey.order_updates cut_user))

unsubscribe_aborts_example : handle_request two_at_most wants_out no_ack 0 1 (codes "{}") hub ≡ none
unfolding label short_user normalized holds_key byte_to_lower
unsubscribe_aborts_example =
    unsubscribe_aborts two_at_most wants_out no_ack 0 1 (codes "{}") (SubKey.order_updates cut_user)
      hub refl refl refl

abbrev heights : List Seq
heights = Seq.block 3 ∷ Seq.block 2 ∷ Seq.snapshot 1 ∷ Seq.block 1 ∷ Seq.block 1 ∷ []
