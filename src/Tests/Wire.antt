-- ===== src/Tests/Wire.antt =====
-- Runs of the decoder and the encoder of src/communication/.
use camera_controller.Base.{
  ℕ, ◌<◌, ◌^◌, ◌≡◌, refl, List, [], ◌∷◌, ◌++◌, none, length, memcpy, replicate, length-replicate,
  foldl, All, arith,
}
use camera_controller.Message.{Message, msgtype_telecommand, msg_max_length}
use camera_controller.MessageDecoder.{
  MessageDecoder, start, decode, decode_loop, round, receiving, receive_chunk, header_byte,
  new_message, size_of_bytes,
}
use camera_controller.MessageDecoder.Automaton.{feed}
use camera_controller.MessageDecoder.Stream.{decode-feed}
use camera_controller.MessageDecoder.Split.{decode-append}
use camera_controller.MessageDecoder.Frames.{
  frame, after_frame, sent, decode-frame, decode-frame_empty,
}
use camera_controller.MessageEncoder.{MessageEncoder, send_log}
use camera_controller.MessageEncoder.Chunks.{chunks, joined}
use camera_controller.MessageEncoder.RoundTrip.{to_decoder, deliver, decode-send_log}

-- Memory that holds 0xcd everywhere, and a handler that collects the messages.
abbrev pub junk : ℕ → ℕ
junk i = 0xcd

abbrev pub collect : Message → List Message → List Message
collect m seen = seen ++ m ∷ []

abbrev pub decoder : MessageDecoder
decoder = record { state = start; temp_type = 0; temp_size1 = 0; received_data = 0; message = none }

abbrev telecommand : List ℕ
telecommand = frame msgtype_telecommand (7 ∷ 8 ∷ 9 ∷ [])

decode-feed_example :
    decode junk collect decoder [] telecommand ≡ foldl (feed junk collect) (decoder, []) telecommand
decode-feed_example = decode-feed junk collect decoder [] telecommand tt

decode-append_example :
    let (d', s') = decode junk collect decoder [] (0x54 ∷ 0xf0 ∷ 2 ∷ []) in
    decode junk collect decoder [] ((0x54 ∷ 0xf0 ∷ 2 ∷ []) ++ (1 ∷ 0 ∷ 9 ∷ []))
    ≡ decode junk collect d' s' (1 ∷ 0 ∷ 9 ∷ [])
decode-append_example =
    decode-append junk collect decoder [] (0x54 ∷ 0xf0 ∷ 2 ∷ []) (1 ∷ 0 ∷ 9 ∷ []) tt

decode-frame_example : decode junk collect decoder [] (frame 2 (7 ∷ 8 ∷ 9 ∷ [])) ≡ (
  after_frame junk collect 2 (7 ∷ 8 ∷ 9 ∷ []),
  collect (sent junk collect 2 (7 ∷ 8 ∷ 9 ∷ [])) [],
)
decode-frame_example = decode-frame junk collect decoder [] 2 7 (8 ∷ 9 ∷ []) refl (omega arith)

decode-frame_empty_example :
    ((decode junk collect decoder [] (frame 2 [])).1 ≡ [])
    × (decode junk collect decoder [] (frame 2 [] ++ 0x54 ∷ [])
        ≡ decode junk collect
            (after_frame junk collect 2 [])
            (collect (sent junk collect 2 []) [])
            (0x54 ∷ []))
decode-frame_empty_example = decode-frame_empty junk collect decoder [] 2 0x54 [] refl

abbrev pub encoder : MessageEncoder
encoder = replicate msg_max_length 0

abbrev record_sent : List ℕ → List (List ℕ) → List (List ℕ)
record_sent bytes seen = seen ++ bytes ∷ []

decode-send_log_example :
    let (d', s') = (send_log (to_decoder junk collect) encoder (decoder, []) (1 ∷ 2 ∷ [])).0.1 in
    let cs = chunks 2 (1 ∷ 2 ∷ []) in
    (d'.state ≡ start)
    × (s' ≡ foldl (deliver junk collect) [] cs)
    × (joined cs ≡ 1 ∷ 2 ∷ [])
    × All (λ c. (0 < length c) × (length c < 2 ^ 16)) cs
decode-send_log_example =
    decode-send_log junk collect encoder decoder [] (1 ∷ 2 ∷ [])
      (length-replicate {A = ℕ} msg_max_length 0) refl

-- Two frames with noise between them, in three reads.
abbrev after_reads : List (List ℕ) → List Message
after_reads reads = (foldl (λ p bytes. decode junk collect p.0 p.1 bytes) (decoder, []) reads).1

three_reads :
    after_reads
      ((0x54 ∷ 0xf0 ∷ 2 ∷ 2 ∷ []) ∷ (0 ∷ 7 ∷ []) ∷ (8 ∷ 1 ∷ 0x54 ∷ 0xf0 ∷ 1 ∷ 1 ∷ 0 ∷ 9 ∷ []) ∷ [])
    ≡ record { type = 2; size = 2; bytes = 7 ∷ 8 ∷ [] }
      ∷ record { type = 1; size = 1; bytes = 9 ∷ [] }
      ∷ []
unfolding decode decode_loop round receiving receive_chunk header_byte new_message size_of_bytes
    memcpy
three_reads = refl

-- After a doubled first magic word the frame is lost.
doubled_magic : after_reads ((0x54 ∷ telecommand) ∷ []) ≡ []
unfolding decode decode_loop round receiving receive_chunk header_byte new_message size_of_bytes
    memcpy
doubled_magic = refl
