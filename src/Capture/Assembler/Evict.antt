-- ===== src/Capture/Assembler/Evict.antt =====
-- `evictOldestIdleStream` finds the stream that was active least recently.
use packet_lab.Prelude.{
  ℕ, ◌≤◌, ◌<◌, ◌≡◌, ◌≢◌, sym, ap, subst, ◌∙◌, false, ◌||◌, Option, none, some, [], ◌∷◌, ltb, ◌==◌,
  if◌then◌else◌, length, Bytes, eqb, eqb_iff, Map, lookup, erase, Unique, All, arith, refl,
  Bool-cases, inl, inr, ◌⊎◌, All-lookup,
}
use packet_lab.Capture.Stream.{TcpStream}
use packet_lab.Capture.Assembler.{oldest_from, evict_oldest_idle_stream}

-- the entry of a map with a key and a time
abbrev Holds : Map TcpStream → Bytes × ℕ → Type 0
Holds streams (key, time) = (s : TcpStream) × (lookup key streams ≡ some s) × (s.last_active ≡ time)

-- what the search finds, from a best entry so far
record Found (best : Bytes × ℕ) (streams : Map TcpStream) (r : Bytes × ℕ) : Type 0 where
  entry : (r ≡ best) ⊎ Holds streams r
  not_later : r.1 ≤ best.1
  first : All (λ e. r.1 ≤ e.1.last_active) streams

abbrev pub WasActive : Bytes × TcpStream → Type 0
WasActive e = 0 < e.1.last_active

holds_later :
    (k : Bytes) (s : TcpStream) (streams : Map TcpStream) (r : Bytes × ℕ)
    → lookup k streams ≡ none
    → Holds streams r
    → Holds ((k, s) ∷ streams) r
unfolding lookup
holds_later k s streams (key, time) absent (t, found, at) = elim (Bool-cases (eqb k key)) [
  | inl same ↦
      let e : none ≡ some t =
        sym (subst (λ i. lookup i streams ≡ none) ((eqb_iff k key).0 same) absent) ∙ found in
      cc
  | inr other ↦ (t, rw (lookup, other) found, at)
]

holds_here :
    (k : Bytes) (s : TcpStream) (streams : Map TcpStream)
    → Holds ((k, s) ∷ streams) (k, s.last_active)
unfolding lookup
holds_here k s streams = (s, ground (arith, eqb_iff k k), refl)

oldest-Found :
    (best : Bytes × ℕ) (streams : Map TcpStream)
    → 0 < best.1
    → Unique streams
    → All WasActive streams
    → Found best streams (oldest_from best streams)
unfolding oldest_from
oldest-Found best [] pos u active = record { entry = inl refl; not_later = omega arith; first = tt }
oldest-Found (key, time) ((k, s) ∷ streams) pos (absent, u) (now, active) =
    elim (Bool-cases ((time == 0) || ltb s.last_active time)) [
      | inl older ↦
          let f = oldest-Found (k, s.last_active) streams now u active in
          let r = oldest_from (k, s.last_active) streams in
          rw (oldest_from, older)
            (record {
              entry = elim f.entry [
                | inl same ↦
                    inr (subst (Holds ((k, s) ∷ streams)) (sym same) (holds_here k s streams))
                | inr later ↦ inr (holds_later k s streams r absent later)
              ];
              not_later = ground (arith, f.not_later);
              first = (f.not_later, f.first);
            })
      | inr newer ↦
          let f = oldest-Found (key, time) streams pos u active in
          let r = oldest_from (key, time) streams in
          rw (oldest_from, newer)
            (record {
              entry = elim f.entry [
                | inl same ↦ inl same
                | inr later ↦ inr (holds_later k s streams r absent later)
              ];
              not_later = f.not_later;
              first = (ground (arith, f.not_later), f.first);
            })
    ]

-- a key of a stream is not empty
abbrev pub HasKey : Bytes × TcpStream → Type 0
HasKey e = e.0 ≢ []

-- the stream that goes, its key, and that no stream was active before it
pub record Evicts (streams : Map TcpStream) (r : Option TcpStream × Map TcpStream) : Type 0 where
  pub key : Bytes
  pub victim : TcpStream
  pub is_there : lookup key streams ≡ some victim
  pub goes : r ≡ (some victim, erase key streams)
  pub least : All (λ e. victim.last_active ≤ e.1.last_active) streams

evict_found :
    (streams : Map TcpStream) (key : Bytes) (victim : TcpStream)
    → (oldest_from ([], 0) streams).0 ≡ key
    → key ≢ []
    → lookup key streams ≡ some victim
    → evict_oldest_idle_stream streams ≡ (some victim, erase key streams)
unfolding evict_oldest_idle_stream
evict_found streams key victim e ne found =
    let named : eqb key [] ≡ false = ground (arith, eqb_iff key []) in
    ap (λ k. if eqb k [] then (none, streams) else (lookup k streams, erase k streams)) e
    ∙ ap (λ b. if b then (none, streams) else (lookup key streams, erase key streams)) named
    ∙ ap (λ o. (o, erase key streams)) found

-- From a map of streams that is not empty, with different keys that are not empty and times above
-- 0, the least recently active stream is taken out.
pub evict_oldest :
    (k : Bytes) (s : TcpStream) (rest : Map TcpStream)
    → Unique ((k, s) ∷ rest)
    → All WasActive ((k, s) ∷ rest)
    → All HasKey ((k, s) ∷ rest)
    → Evicts ((k, s) ∷ rest) (evict_oldest_idle_stream ((k, s) ∷ rest))
unfolding oldest_from
evict_oldest k s rest (absent, u) (now, active) keys =
    let streams = (k, s) ∷ rest in
    let r = oldest_from (k, s.last_active) rest in
    let f = oldest-Found (k, s.last_active) rest now u active in
    let holds : Holds streams r = elim f.entry [
      | inl same ↦ subst (Holds streams) (sym same) (holds_here k s rest)
      | inr later ↦ holds_later k s rest r absent later
    ] in
    let (victim, found, at) = holds in
    record {
      key = r.0;
      victim = victim;
      is_there = found;
      goes =
          evict_found streams r.0 victim refl (All-lookup HasKey r.0 streams victim keys found)
            found;
      least = subst (λ n. All (λ e. n ≤ e.1.last_active) streams) (sym at) (f.not_later, f.first);
    }

-- the map has the key
abbrev IsIn : Map TcpStream → Bytes → Type 0
IsIn streams key = (s : TcpStream) × (lookup key streams ≡ some s)

IsIn-later :
    (k : Bytes) (s : TcpStream) (m : Map TcpStream) (r : Bytes) → IsIn m r → IsIn ((k, s) ∷ m) r
unfolding lookup
IsIn-later k s m r (t, e) = elim (Bool-cases (eqb k r)) [
  | inl same ↦ (s, rw (lookup, same))
  | inr other ↦ (t, rw (lookup, other) e)
]

IsIn-here : (k : Bytes) (s : TcpStream) (m : Map TcpStream) → IsIn ((k, s) ∷ m) k
unfolding lookup
IsIn-here k s m = (s, ground (arith, eqb_iff k k))

oldest_there :
    (best : Bytes × ℕ) (streams : Map TcpStream)
    → ((oldest_from best streams).0 ≡ best.0) ⊎ IsIn streams (oldest_from best streams).0
unfolding oldest_from
oldest_there best [] = inl refl
oldest_there (key, time) ((k, s) ∷ streams) =
    elim (Bool-cases ((time == 0) || ltb s.last_active time)) [
      | inl older ↦
          rw (oldest_from, older)
            (elim (oldest_there (k, s.last_active) streams) [
              | inl e ↦ inr (subst (IsIn ((k, s) ∷ streams)) (sym e) (IsIn-here k s streams))
              | inr e ↦ inr (IsIn-later k s streams (oldest_from (k, s.last_active) streams).0 e)
            ])
      | inr newer ↦
          rw (oldest_from, newer)
            (elim (oldest_there (key, time) streams) [
              | inl e ↦ inl e
              | inr e ↦ inr (IsIn-later k s streams (oldest_from (key, time) streams).0 e)
            ])
    ]

-- what an eviction takes away
pub record Takes (streams : Map TcpStream) (r : Option TcpStream × Map TcpStream) : Type 0 where
  pub key : Bytes
  pub victim : TcpStream
  pub is_there : lookup key streams ≡ some victim
  pub goes : r ≡ (some victim, erase key streams)

-- an eviction takes a stream, if there is one
pub evict-Takes :
    (streams : Map TcpStream)
    → 0 < length streams
    → All HasKey streams
    → Takes streams (evict_oldest_idle_stream streams)
unfolding oldest_from
evict-Takes [] some_stream keys = absurd (omega arith)
evict-Takes ((k, s) ∷ rest) some_stream keys =
    let streams = (k, s) ∷ rest in
    let key = (oldest_from (k, s.last_active) rest).0 in
    let there : IsIn streams key = elim (oldest_there (k, s.last_active) rest) [
      | inl e ↦ subst (IsIn streams) (sym e) (IsIn-here k s rest)
      | inr e ↦ IsIn-later k s rest key e
    ] in
    record {
      key = key;
      victim = there.0;
      is_there = there.1;
      goes =
          evict_found streams key there.0 refl (All-lookup HasKey key streams there.0 keys there.1)
            there.1;
    }
