-- ===== src/Tests/Peers.antt =====
-- A message that arrives in two pieces, and a handshake.
use bitrst.Base.{
  ℕ, ◌≡◌, refl, List, [], ◌∷◌, ◌++◌, take, drop, replicate, none, some, true, ok, arith,
  take-append-drop, ◌∙◌, sym, ap, append_assoc,
}
use bitrst.Base.Int.{pos}
use bitrst.Wire.CompactSize.{compact_size, write_compact_size}
use bitrst.Net.Types.{
  VersionMessage, Message, InventoryVector, block, verack_message, version_message, inv_message,
  to_u32,
}
use bitrst.Net.Handshake.{HandshakeConfig, inbound, new_handshake, on_message, established}
use bitrst.Net.Protocol.{Received, Progress, after_messages}
use bitrst.Net.Phases.{after_messages-Progress}
use bitrst.Net.Framing.{Framed, closed, arrived, frame, read_message, testnet}
use bitrst.Net.Arriving.{Flowing, ahead}
use bitrst.Net.FrameRoundTrip.{IsMessage, frame_bytes, read_message-frame}
use bitrst.Wire.Bytes.{to_le_bytes}
use bitrst.Tests.Data.{toy}

abbrev announced : List InventoryVector
announced = record { inv_type = block; hash = replicate 32 7 } ∷ []

abbrev announcement : Message
announcement = inv_message announced

announcement-IsMessage : IsMessage announcement
unfolding inv_message compact_size write_compact_size to_u32 to_le_bytes
announcement-IsMessage = record {
  named = refl;
  typed = record { fits = omega arith; hashes = (refl, tt) };
  fits = omega arith;
}

abbrev sent : List ℕ
sent = frame_bytes toy testnet announcement

abbrev two_pieces : Framed
two_pieces = record {
  buffer = [];
  arrivals = arrived (take 10 sent) (arrived (drop 10 sent) closed);
}

two_pieces-ahead : ahead two_pieces ≡ sent ++ []
two_pieces-ahead =
    sym (append_assoc (take 10 sent) (drop 10 sent) [])
    ∙ ap (λ bs. bs ++ []) (take-append-drop 10 sent)

two_pieces-Flowing : Flowing two_pieces.arrivals
unfolding inv_message compact_size write_compact_size to_u32 to_le_bytes
two_pieces-Flowing = (λ e. omega arith, (λ e. omega arith, tt))

read_message-frame_example :
    (frame toy testnet announcement ≡ ok sent)
    × (after : Framed) × (read_message toy testnet two_pieces ≡ (after, ok announcement))
    × (ahead after ≡ [])
    × Flowing after.arrivals
read_message-frame_example =
    read_message-frame toy testnet announcement announcement-IsMessage two_pieces []
      two_pieces-Flowing two_pieces-ahead

abbrev peer : VersionMessage
peer = record {
  version = pos 70_016;
  services = 1;
  timestamp = pos 1_700_000_000;
  nonce = 99;
  user_agent = [];
  start_height = pos 0;
  relay = true;
}

abbrev own_config : HandshakeConfig
own_config = record { local_nonce = 42; timeout = 60 }

abbrev shaken : List Received
shaken = (verack_message, none) ∷ (version_message peer, some peer) ∷ []

shaken-established : (after_messages (new_handshake inbound own_config) shaken).phase ≡ established
unfolding new_handshake on_message verack_message version_message
shaken-established = refl

after_messages-Progress_example :
    Progress 42 inbound
      (after_messages (new_handshake inbound own_config) shaken).phase
      (after_messages (new_handshake inbound own_config) shaken).peer_version
      shaken
after_messages-Progress_example = after_messages-Progress own_config inbound shaken
