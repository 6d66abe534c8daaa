-- ===== src/Rpc.antt =====
-- The part of eRPC that the protocols use, seen from one node: the requests and responses that it
-- hands over, and the map from node ids to sessions (`std::unordered_map<int, int>`).
-- eRPC itself is a third-party library: what it delivers is an argument of the models.
use replication_protos.Prelude.{
  ℕ, ◌≡◌, refl, Bool, true, false, List, [], ◌∷◌, ◌++◌, ap, ◌==◌, arith, if◌then◌else◌, Bytes,
}

-- `R` is the type of the diagnostics that a program prints.
pub data Effect (R : Type 0) : Type 0 where
  -- `enqueue_request(session, type, req, resp)`: the session, the request's type and bytes, and
  -- the size of the buffer for the response.
  request : ℕ → ℕ → Bytes → ℕ → Effect R
  -- `enqueue_response` of a buffer that was resized and not filled: its size.
  ack : ℕ → Effect R
  -- `enqueue_response` of a buffer that was filled: its bytes.
  reply : Bytes → Effect R
  report : R → Effect R

abbrev pub Sessions : Type 0
Sessions = List (ℕ × ℕ)

-- The value of `connections[id]`.
unfoldable pub session_of : ℕ → Sessions → ℕ
session_of id [] = 0
session_of id ((k, v) ∷ m) = if k == id then v else session_of id m

unfoldable pub has_session : ℕ → Sessions → Bool
has_session id [] = false
has_session id ((k, v) ∷ m) = if k == id then true else has_session id m

-- `operator[]` inserts a value-initialised entry for a missing key.
unfoldable pub touch : ℕ → Sessions → Sessions
touch id m = if has_session id m then m else m ++ ((id, 0) ∷ [])

-- `insert` does nothing where the key is present.
unfoldable pub add_session : ℕ → ℕ → Sessions → Sessions
add_session id session m = if has_session id m then m else m ++ ((id, session) ∷ [])

module _ {R : Type 0} where
  -- The requests of a trace, without their sessions: type and bytes.
  abbrev pub requests : List (Effect R) → List (ℕ × Bytes)
  requests [] = []
  requests (request s t b n ∷ es) = (t, b) ∷ requests es
  requests (ack n ∷ es) = requests es
  requests (reply b ∷ es) = requests es
  requests (report r ∷ es) = requests es

  pub requests-append : (es fs : List (Effect R)) → requests (es ++ fs) ≡ requests es ++ requests fs
  requests-append [] fs = refl
  requests-append (request s t b n ∷ es) fs = ap (◌∷◌ (t, b)) (requests-append es fs)
  requests-append (ack n ∷ es) fs = requests-append es fs
  requests-append (reply b ∷ es) fs = requests-append es fs
  requests-append (report r ∷ es) fs = requests-append es fs

  -- The requests of a trace with their sessions, and the responses that were filled.
  abbrev pub outgoing : List (Effect R) → List (Effect R)
  outgoing [] = []
  outgoing (request s t b n ∷ es) = request s t b n ∷ outgoing es
  outgoing (ack n ∷ es) = outgoing es
  outgoing (reply b ∷ es) = outgoing es
  outgoing (report r ∷ es) = outgoing es

  abbrev pub replies : List (Effect R) → List Bytes
  replies [] = []
  replies (request s t b n ∷ es) = replies es
  replies (ack n ∷ es) = replies es
  replies (reply b ∷ es) = b ∷ replies es
  replies (report r ∷ es) = replies es

  pub outgoing-append : (es fs : List (Effect R)) → outgoing (es ++ fs) ≡ outgoing es ++ outgoing fs
  outgoing-append [] fs = refl
  outgoing-append (request s t b n ∷ es) fs = ap (◌∷◌ (request s t b n)) (outgoing-append es fs)
  outgoing-append (ack n ∷ es) fs = outgoing-append es fs
  outgoing-append (reply b ∷ es) fs = outgoing-append es fs
  outgoing-append (report r ∷ es) fs = outgoing-append es fs

  pub replies-append : (es fs : List (Effect R)) → replies (es ++ fs) ≡ replies es ++ replies fs
  replies-append [] fs = refl
  replies-append (request s t b n ∷ es) fs = replies-append es fs
  replies-append (ack n ∷ es) fs = replies-append es fs
  replies-append (reply b ∷ es) fs = ap (◌∷◌ b) (replies-append es fs)
  replies-append (report r ∷ es) fs = replies-append es fs

  -- One request to each of `dests`, over the session of each.
  abbrev pub to_each : ℕ → (ℕ → Bytes) → ℕ → (ℕ → ℕ) → List ℕ → List (Effect R)
  to_each type body resp route [] = []
  to_each type body resp route (dest ∷ dests) =
      request (route dest) type (body dest) resp ∷ to_each type body resp route dests

  pub outgoing-to_each :
      (type : ℕ) (body : ℕ → Bytes) (resp : ℕ) (route : ℕ → ℕ) (dests : List ℕ)
      → outgoing (to_each type body resp route dests) ≡ to_each type body resp route dests
  outgoing-to_each type body resp route [] = refl
  outgoing-to_each type body resp route (dest ∷ dests) =
      ap (◌∷◌ (request (route dest) type (body dest) resp))
        (outgoing-to_each type body resp route dests)

pub replies-to_each :
    (R : Type 0) (type : ℕ) (body : ℕ → Bytes) (resp : ℕ) (route : ℕ → ℕ) (dests : List ℕ)
    → replies {R = R} (to_each type body resp route dests) ≡ []
replies-to_each R type body resp route [] = refl
replies-to_each R type body resp route (dest ∷ dests) = replies-to_each R type body resp route dests

-- The session of every node.
abbrev pub route_of : Sessions → ℕ → ℕ
route_of m id = session_of id m

session_of-append : (k id : ℕ) (m : Sessions) → session_of k (m ++ ((id, 0) ∷ [])) ≡ session_of k m
unfolding session_of
session_of-append k id [] = ground arith
session_of-append k id ((j, s) ∷ m) = ground (arith, session_of-append k id m)

-- The entry that an access inserts changes no session.
pub route_of-touch : (id : ℕ) (m : Sessions) → route_of (touch id m) ≡ route_of m
unfolding touch
route_of-touch id m = λ i k. at k i
  where
    either :
        (t : Bool) (k : ℕ) → session_of k (if t then m else m ++ ((id, 0) ∷ [])) ≡ session_of k m
    either true k = refl
    either false k = session_of-append k id m

    at : (k : ℕ) → session_of k (touch id m) ≡ session_of k m
    at k = either (has_session id m) k
