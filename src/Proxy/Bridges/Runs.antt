-- ===== src/Proxy/Bridges/Runs.antt =====
-- Bridges over streams in memory with a toy cipher, and what the theorems say of them.
use tg_ws_keenetic.Base.{
  ℕ, zero, suc, ◌+◌, ◌-◌, ◌*◌, ◌/◌, ◌%◌, ◌^◌, ◌≤◌, ◌<◌, min, max, bit_xor, ◌≡◌, refl, sym, ap, ◌∙◌,
  ◌≢◌, ◌↔◌, ◌⊎◌, inl, inr, Bool, true, false, not, ◌&&◌, ◌||◌, Option, none, some, List, [], ◌∷◌,
  ◌++◌, append_assoc, append-nil, arith, ltb, leb, ◌==◌, if◌then◌else◌, ltb→lt, lt→ltb, leb→le,
  ==_iff, tests, Bool-cases, and-true, either, not-true, or-false, Option-cases, some_inj, length,
  get_elem?, get_or, take, drop, replicate, All, length-append, length-take, length-drop,
  length-replicate, take-append-drop, take_at, drop_at, take-append, slice-append, slice-take,
  get_or-drop, get_or-append, take_all, drop_all, drop_nil, drop-drop, Result, ok, err, ErrorKind,
  ◌>>=◌, ◌>>◌, reject, ok_inj,
}
use tg_ws_keenetic.Base.Bytes.{Bytes}
use tg_ws_keenetic.Crypto.{CryptoContext, build_context, ClientHandshake, secret_key}
use tg_ws_keenetic.Crypto.{abridged}
use tg_ws_keenetic.Crypto.Handshakes.{opened}
use tg_ws_keenetic.Memory.{text, kept, toy, exact}
use tg_ws_keenetic.WebSocket.Writer.{WsWriter}
use tg_ws_keenetic.WebSocket.Reader.{new_reader}
use tg_ws_keenetic.Proxy.Bridges
use tg_ws_keenetic.Proxy.Bridges.{Ciphers, copy_crypto, Download, download_ws}
use tg_ws_keenetic.Proxy.Bridges.Copies.{copy_crypto_uploads}
use tg_ws_keenetic.Proxy.Bridges.Downloads
use tg_ws_keenetic.Proxy.Bridges.Downloads.{download_ws-Ends}
use tg_ws_keenetic.Proxy.Uploads.{Upload, upload_ws}
use tg_ws_keenetic.Proxy.Uploads.Bodies
use tg_ws_keenetic.Proxy.Uploads.Packets.{upload_ws-Ends}

abbrev client : ClientHandshake
client = record {
  dc_index = tg_ws_keenetic.Base.Int.pos 2;
  protocol = abridged;
  prekey_iv = replicate 48 7;
}

abbrev relay : Bytes
relay = replicate 64 9

abbrev context : CryptoContext toy
context = build_context toy client [] relay

abbrev data_sent : Bytes
data_sent = 1 ∷ 2 ∷ 3 ∷ 4 ∷ 5 ∷ []

-- What the client sends behind 64 bytes of handshake.
abbrev wire : Bytes
wire =
    (toy.apply_keystream
      (toy.apply_keystream
        (toy.new (secret_key toy (take 32 client.prekey_iv) []) (drop 32 client.prekey_iv))
        (replicate 64 0)).1
      data_sent).0

abbrev ciphers : Ciphers toy
ciphers = record {
  decrypt = context.client_decrypt;
  encrypt = context.upstream_encrypt;
  counted = 0;
}

copy_runs : (copy_crypto toy text kept 2 wire [] ciphers).0 ≡ some (ok tt)
unfolding copy_crypto
copy_runs = refl

abbrev copied : Bridges.Copied toy text kept
copied = copy_crypto toy text kept 2 wire [] ciphers

copied_ends : copied ≡ (some (ok tt), [], copied.2, copied.3)
unfolding copy_crypto
copied_ends = refl

copy_crypto_uploads_example :
    (sent : Bytes) × (copied.2 ≡ [] ++ sent)
    × ((toy.apply_keystream
          (toy.new (take 32 (drop 8 relay)) (take 16 (drop 40 relay)))
          (relay ++ sent)).0
        ≡ opened toy relay ++ data_sent)
copy_crypto_uploads_example =
    copy_crypto_uploads toy text kept client [] relay (replicate 64 0) data_sent 2 wire [] []
      copied.2 ciphers copied.3 refl refl refl refl refl copied_ends refl

-- A WebSocket that sends three bytes and closes.
abbrev server_frames : Bytes
server_frames = 130 ∷ 3 ∷ 10 ∷ 20 ∷ 30 ∷ 136 ∷ 0 ∷ []

abbrev download : Download toy text kept kept
download = record {
  reader = new_reader;
  source = server_frames;
  side = (record { remaining = 0; mask = []; offset = 0 }, []);
  client = [];
  ciphers = record { decrypt = 0; encrypt = 0; counted = 0 };
}

abbrev masks : ℕ → Bytes
masks _ = 1 ∷ 2 ∷ 3 ∷ 4 ∷ []

abbrev downloaded : Bridges.Downloaded toy text kept kept
downloaded = download_ws toy text kept kept (λ _. masks) (λ _. true) 2 download

-- With equal ciphers the data comes out as it is.
download_runs : (downloaded.0 ≡ some (ok tt)) × (downloaded.1.client ≡ 10 ∷ 20 ∷ 30 ∷ [])
unfolding download_ws exact tg_ws_keenetic.WebSocket.Reader.chunk
download_runs = (refl, refl)

download_ws-Ends_example :
    Downloads.EndsFrom toy text kept kept download
      (λ _. masks)
      (λ _. true)
      2
      8
      []
      download
      downloaded
download_ws-Ends_example =
    download_ws-Ends toy text kept kept (λ _. masks) (λ _. true) 2 download
      (omega arith, omega arith)

-- Two packets of the abridged transport, of four bytes each, read two bytes at a time.
abbrev two_packets : Bytes
two_packets = 1 ∷ 11 ∷ 12 ∷ 13 ∷ 14 ∷ 1 ∷ 21 ∷ 22 ∷ 23 ∷ 24 ∷ []

abbrev upload : Upload toy text kept
upload = record {
  source = (toy.apply_keystream 0 two_packets).0;
  writer = record { remaining = 0; mask = []; offset = 0 };
  sink = [];
  ciphers = record { decrypt = 0; encrypt = 0; counted = 0 };
}

abbrev uploaded : tg_ws_keenetic.Proxy.Uploads.Uploaded toy text kept
uploaded = upload_ws toy text kept masks abridged true 2 upload

-- Each becomes a frame of five bytes behind two bytes of header and four of mask.
upload_runs :
    (uploaded.0 ≡ some (ok tt))
    × (length uploaded.1.sink ≡ 22)
    × (take 2 uploaded.1.sink ≡ 130 ∷ 133 ∷ [])
    × (take 2 (drop 11 uploaded.1.sink) ≡ 130 ∷ 133 ∷ [])
unfolding upload_ws exact tg_ws_keenetic.Framing.header_len tg_ws_keenetic.Framing.packet_length
    tg_ws_keenetic.WebSocket.Writer.begin_binary tg_ws_keenetic.WebSocket.Writer.payload
upload_runs = (refl, refl, refl, refl)

upload_ws-Ends_example : Bodies.Ends toy text kept abridged upload true uploaded
upload_ws-Ends_example = upload_ws-Ends toy text kept masks abridged true 2 upload
