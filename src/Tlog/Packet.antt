-- ===== src/Tlog/Packet.antt =====
-- trusted-log/main.cc: what the handlers do with a packet, a text and the 32 bytes behind it.
use replication_protos.Prelude.{
  ℕ, suc, ◌-◌, ◌≤◌, ◌<◌, u32_mod, ◌≡◌, refl, ap, sym, ◌∙◌, true, some, List, [], ◌∷◌, ◌++◌,
  append-nil, arith, Bytes, load, load_eq, load_fields, load_prefix, load-append, take, drop,
  decode_le, store_behind, same_bytes, length, length-append, length-take, drop_all,
}
use replication_protos.Outcome.{ok}
use replication_protos.Attest.{Platform, hmac_size, hmac_key}
use replication_protos.Attest.Signed.{get_attestation_lem, load_code}
use replication_protos.Tlog.Format.{PMsg, p_msg_size, memcpy_into_p_msg}
use replication_protos.Tlog.Log.{LogEntry}
use replication_protos.Tlog.Layout.{Fits}
use replication_protos.Tlog.Metadata.{Metadata, log_entry}
use replication_protos.Tlog.Chain.{IsLog, logged_entry, log-IsLog}
use replication_protos.Tlog.Node.{
  check_mac, log_message, text_size, sign, apply_all, apply_protocol,
}

module _ (openssl : Bytes → Bytes → Bytes)
    (code_size : (k m : Bytes) → length (openssl k m) ≡ hmac_size) (platform : Platform) where
  -- A new buffer with the text, and its code behind it.
  pub sign_lem :
      (text room : Bytes)
      → length room ≡ hmac_size
      → sign openssl platform (length text) (text ++ room) ≡ ok (text ++ openssl hmac_key text)
  unfolding sign
  sign_lem text room e = rw (
    load_prefix (length text) text room refl,
    get_attestation_lem openssl code_size platform text platform,
    load_code openssl code_size platform text,
    store_behind (length (text ++ room) - hmac_size) (openssl hmac_key text) text room
        (omega (arith, e, length-append {0} text room)) (omega (arith, e, code_size hmac_key text)),
    drop_all (length (openssl hmac_key text)) room (omega (arith, e, code_size hmac_key text)),
    append-nil (openssl hmac_key text),
  )

  module _ (text code : Bytes) (small : length text < u32_mod)
      (size : length code ≡ hmac_size) where
    pub text_size_lem : text_size (text ++ code) ≡ length text
    unfolding text_size
    text_size_lem = omega (arith, small, size, length-append {0} text code)

    load-text : load 0 (length text) (text ++ code) ≡ some text
    load-text = load_prefix (length text) text code refl

    load-code : load (length text) hmac_size (text ++ code) ≡ some code
    load-code =
        ap (load (length text) hmac_size) (ap (◌++◌ text) (sym (append-nil code)))
        ∙ load-append (length text) hmac_size text code [] refl (sym size)

    pub check_mac_lem :
        check_mac openssl platform (text ++ code) ≡ ok (same_bytes (openssl hmac_key text) code)
    unfolding check_mac
    check_mac_lem = rw (
      text_size_lem,
      load-text,
      get_attestation_lem openssl code_size platform text platform,
      load_code openssl code_size platform text,
      load-code,
    )

    pub log_message-IsLog :
        (uninit : LogEntry) (meta : Metadata) (es : List LogEntry) (free : ℕ)
        → length text ≤ log_entry
        → IsLog openssl meta.tlog es (suc free)
        → Fits log_entry uninit
        → (tlog : _) × (log_message openssl platform (text ++ code) uninit meta
            ≡ ok (true, record meta { tlog = tlog }))
          × IsLog openssl tlog
              (es ++ (logged_entry openssl code_size platform text code uninit es ∷ []))
              free
    unfolding log_message
    log_message-IsLog uninit meta es free fits v f =
        let (tlog, done, after) =
          log-IsLog openssl code_size platform text code uninit meta es free v f fits size in
        (tlog, rw (text_size_lem, load-text, load-code) done, after)

-- A request is read from any 132 bytes.
abbrev p_msg_in : Bytes → PMsg
p_msg_in b = record {
  cmd = take 16 b;
  output = take 16 (drop 16 b);
  meta = record {
    cnt = decode_le (take 4 (drop 32 b));
    prev_h = take 32 (drop 36 b);
    f1_prev = take 32 (drop 68 b);
    f2_prev = take 32 (drop 100 b);
  };
}

memcpy_into_p_msg_total :
    (b : Bytes) → length b ≡ p_msg_size → memcpy_into_p_msg b ≡ some (p_msg_in b)
unfolding memcpy_into_p_msg load_fields
memcpy_into_p_msg_total b e = rw (
  load_eq 0 16 b (omega (arith, e)),
  load_eq 16 16 b (omega (arith, e)),
  load_eq 32 4 b (omega (arith, e)),
  load_eq 36 32 b (omega (arith, e)),
  load_eq 68 32 b (omega (arith, e)),
  load_eq 100 32 b (omega (arith, e)),
)

-- One request is applied, whatever it says.
pub apply_all-single :
    (packet : Bytes) (meta : Metadata)
    → p_msg_size ≤ length packet
    → apply_all 1 0 packet meta ≡ ok (apply_protocol meta)
unfolding apply_all
apply_all-single packet meta h = rw (
  load_eq 0 p_msg_size packet (omega (arith, h)),
  memcpy_into_p_msg_total (take p_msg_size packet)
      (omega (arith, h, length-take {0} p_msg_size packet)),
)
