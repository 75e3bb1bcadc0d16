-- ===== src/Transport/WebSocket/Mixed.antt =====
-- What a websocket connection writes, any other reads.
use test_go_server.Prelude.{
  ◌≡◌, refl, ap, sym, subst, ◌∙◌, ◌⊎◌, inl, inr, List, [], ◌∷◌, ◌++◌, Option, none, some, Bool,
  true, false, if◌then◌else◌, ◌==◌, append-nil, append_assoc, length, take, arith,
}
use test_go_server.Protocol.{Bytes, Envelope}
use test_go_server.Transport.RoundTrip.{Decodes}
use test_go_server.Transport.WebSocket.{
  MessageType, text_message, binary_message, Codecs, WsConn, decode, write_message, write_envelope,
  write_loop, read_loop,
}

-- The connection refuses an envelope and stays as it is, or takes one message that decodes to it.
abbrev Writes : Codecs → Envelope → WsConn → WsConn × Bool → Type 0
Writes x env c r =
    (r ≡ (c, false))
    ⊎ ((m : MessageType × Bytes) × (decode x m ≡ some env)
        × (r ≡ (record c { written = c.written ++ m ∷ [] }, true)))

write_message-Writes :
    (x : Codecs) (env : Envelope) (t : MessageType) (o : Option Bytes) (c : WsConn)
    → ((text : Bytes) → o ≡ some text → decode x (t, text) ≡ some env)
    → Writes x env c (write_message t o c)
unfolding write_message
write_message-Writes x env t none c law = inl refl
write_message-Writes x env t (some text) c law = by_state c.up
  where
    taken : WsConn × Bool
    taken = (record c { written = c.written ++ (t, text) ∷ [] }, true)

    by_state : (up : Bool) → Writes x env c (if up then taken else (c, false))
    by_state true = inr ((t, text), law text refl, refl)
    by_state false = inl refl

module _ (x : Codecs) (json : Decodes x.json) (proto : Decodes x.proto) where
  write_envelope-Writes : (env : Envelope) (c : WsConn) → Writes x env c (write_envelope x env c)
  unfolding write_envelope decode
  write_envelope-Writes env c = by_setting c.use_json
    where
      by_setting :
          (use_json : Bool)
          → Writes x env c (
              if use_json
              then write_message text_message (x.json.marshal env) c
              else write_message binary_message (x.proto.marshal env) c)
      by_setting true = write_message-Writes x env text_message (x.json.marshal env) c (json env)
      by_setting false =
          write_message-Writes x env binary_message (x.proto.marshal env) c (proto env)

  -- The messages that a write loop has added: they read as that many of the envelopes, and the loop
  -- ends without an error exactly when there are as many.
  record Wrote (es : List Envelope) (c : WsConn) (r : WsConn × Bool) : Type 0 where
    added : List (MessageType × Bytes)
    written : r.0.written ≡ c.written ++ added
    reads : read_loop x added ≡ take (length added) es
    fine : r.1 ≡ (length added == length es)

  stopped : (env : Envelope) (es : List Envelope) (c : WsConn) → Wrote (env ∷ es) c (c, false)
  unfolding read_loop
  stopped env es c = record {
    added = [];
    written = sym (append-nil c.written);
    reads = refl;
    fine = ground arith;
  }

  read_loop-next :
      (m : MessageType × Bytes) (env : Envelope) (ms : List (MessageType × Bytes))
      → decode x m ≡ some env
      → read_loop x (m ∷ ms) ≡ env ∷ read_loop x ms
  unfolding read_loop
  read_loop-next m env ms e = rw (e, read_loop) refl

  write_loop-Wrote : (es : List Envelope) (c : WsConn) → Wrote es c (write_loop x es c)
  unfolding write_loop
  write_loop-Wrote [] c = record {
    added = [];
    written = sym (append-nil c.written);
    reads = unfold read_loop in refl;
    fine = ground arith;
  }
  write_loop-Wrote (env ∷ es) c = elim (write_envelope-Writes env c) [
    | inl e ↦ subst (Wrote (env ∷ es) c) (sym (ap after e)) (stopped env es c)
    | inr (m, decodes, e) ↦
        let d : WsConn = record c { written = c.written ++ m ∷ [] } in
        let w = write_loop-Wrote es d in
        subst (Wrote (env ∷ es) c) (sym (ap after e)) (record {
          added = m ∷ w.added;
          written = w.written ∙ append_assoc c.written (m ∷ []) w.added;
          reads = read_loop-next m env w.added decodes ∙ ap (◌∷◌ env) w.reads;
          fine = w.fine ∙ ground arith;
        })
  ]
    where
      after : WsConn × Bool → WsConn × Bool
      after (c1, fine) = let rest = write_loop x es c1 in if fine then rest else (c1, false)

  -- What a connection that has written nothing writes of some envelopes, up to the first error, in
  -- JSON or in protobuf as it is set: any reader reads it as the first of the envelopes, as many as
  -- there are messages, and there was no error exactly when these are all.  This relies on both
  -- codings to decode what they encode.
  pub read_loop-write_loop :
      (es : List Envelope) (c : WsConn)
      → c.written ≡ []
      → let r = write_loop x es c in
        (read_loop x r.0.written ≡ take (length r.0.written) es)
        × (r.1 ≡ (length r.0.written == length es))
  read_loop-write_loop es c fresh =
      let w = write_loop-Wrote es c in
      let same : (write_loop x es c).0.written ≡ w.added =
        w.written ∙ ap (λ ms. ms ++ w.added) fresh in
      (
        ap (read_loop x) same ∙ w.reads ∙ ap (λ ms. take (length ms) es) (sym same),
        w.fine ∙ ap (λ ms. length ms == length es) (sym same),
      )
