-- ===== src/Vm/Backend/Cid.antt =====
-- allocateCID of vm/backend.go: the counter file, which is locked while it is read and written.
use claude_cowork_service.Base.{
  Bytes, Option, [], arith, if◌then◌else◌, is_empty, leb, none, some, suc, take, take_all, zero, ℕ,
  ◌%◌, ◌+◌, ◌-◌, ◌<◌, ◌^◌, ◌≡◌, ◌≢◌, ◌≤◌,
}
use claude_cowork_service.Decimal.{format_uint, format_uint-is_empty, length-format_uint}

abbrev pub default_cid : ℕ
default_cid = 3

-- The calls on the counter file: opening and locking it, its content, and the failures of writing.
-- `scan` is fmt.Sscanf of a uint32.
pub record CidCalls : Type 0 where
  pub scan : Bytes → Option ℕ
  pub open_error : Option Bytes
  pub flock_error : Option Bytes
  pub truncate_error : Option Bytes
  pub write_error : Option Bytes

-- The number in the counter file, if it is one that may be given out.
unfoldable pub stored_cid : CidCalls → Bytes → ℕ
unfolding is_empty
stored_cid os content = if is_empty content then default_cid else elim (os.scan (take 32 content)) [
  | none ↦ default_cid
  | some parsed ↦ if leb 3 parsed then parsed else default_cid
]

-- The next number, as a uint32.
unfoldable pub next_cid : ℕ → ℕ
next_cid cid = let next = (cid + 1) % 2 ^ 32 in if leb 65535 next then 3 else next

-- allocateCID: the counter file and the CID. A file that was truncated and not written is empty.
unfoldable pub allocate_cid : CidCalls → Bytes → Bytes × ℕ
unfolding stored_cid next_cid format_uint
allocate_cid os content =
    let cid = stored_cid os content in
    elim os.open_error [
      | some e ↦ (content, default_cid)
      | none ↦ elim os.flock_error [
        | some e ↦ (content, default_cid)
        | none ↦ elim os.truncate_error [
          | some e ↦ (content, cid)
          | none ↦ elim os.write_error [
            | some e ↦ ([], cid)
            | none ↦ (format_uint (next_cid cid), cid)
          ]
        ]
      ]
    ]

-- The CID of the k-th allocation from now on, from 0, by whichever processes.
unfoldable pub cid_at : CidCalls → ℕ → Bytes → ℕ
cid_at os zero content = (allocate_cid os content).1
cid_at os (suc k) content = cid_at os k (allocate_cid os content).0

-- The calls on the file succeed, and the scan reads a number that was printed.
pub record Works (os : CidCalls) : Type 0 where
  pub opens : os.open_error ≡ none
  pub locks : os.flock_error ≡ none
  pub truncates : os.truncate_error ≡ none
  pub writes : os.write_error ≡ none
  pub scans : (n : ℕ) → n < 65535 → os.scan (format_uint n) ≡ some n

next_cid_lem :
    (cid : ℕ)
    → 3 ≤ cid
    → cid < 65535
    → (3 ≤ next_cid cid) × (next_cid cid < 65535) × (next_cid cid ≡ 3 + (cid - 3 + 1) % 65532)
unfolding next_cid
next_cid_lem cid a b = (ground arith, ground arith, ground arith)

stored-format_uint :
    (os : CidCalls) (n : ℕ) → Works os → 3 ≤ n → n < 65535 → stored_cid os (format_uint n) ≡ n
unfolding stored_cid
stored-format_uint os n w a b =
    let short : take 32 (format_uint n) ≡ format_uint n =
      take_all 32 (format_uint n) (omega (arith, length-format_uint n)) in
    rw (stored_cid, format_uint-is_empty n, short, w.scans n b) (ground arith)

allocate_cid-Works :
    (os : CidCalls) (content : Bytes)
    → Works os
    → allocate_cid os content
      ≡ (format_uint (next_cid (stored_cid os content)), stored_cid os content)
unfolding allocate_cid
allocate_cid-Works os content w = rw (allocate_cid, w.opens, w.locks, w.truncates, w.writes)

cid_at_lem :
    (os : CidCalls) (k : ℕ) (content : Bytes)
    → Works os
    → 3 ≤ stored_cid os content
    → stored_cid os content < 65535
    → cid_at os k content ≡ 3 + (stored_cid os content - 3 + k) % 65532
unfolding cid_at
cid_at_lem os zero content w a b = rw (cid_at, allocate_cid-Works os content w) (omega arith)
cid_at_lem os (suc k) content w a b =
    let first = stored_cid os content in
    let (c, d, e) = next_cid_lem first a b in
    let f : stored_cid os (format_uint (next_cid first)) ≡ next_cid first =
      stored-format_uint os (next_cid first) w c d in
    let rest =
      cid_at_lem os k (format_uint (next_cid first)) w (omega (arith, f)) (omega (arith, f)) in
    rw (cid_at, allocate_cid-Works os content w) (omega (arith, rest, f, e))

stored_cid_least : (os : CidCalls) (content : Bytes) → 3 ≤ stored_cid os content
unfolding stored_cid
stored_cid_least os content = ground arith

-- While the calls on the counter file succeed and it does not hold a number past 65534, the CIDs
-- that are given out, by whichever processes in turn, are those from 3 to 65534 in a cycle; so no
-- two of 65532 allocations in a row are the same.
pub cid_at_cycle :
    (os : CidCalls) (content : Bytes)
    → Works os
    → stored_cid os content < 65535
    → ((k : ℕ) → cid_at os k content ≡ 3 + (stored_cid os content - 3 + k) % 65532)
      × ((i j : ℕ) → i < j → j < i + 65532 → cid_at os i content ≢ cid_at os j content)
cid_at_cycle os content w b =
    let a = stored_cid_least os content in
    (
      λ k. cid_at_lem os k content w a b,
      λ i j p q e.
          absurd (omega (arith, e, cid_at_lem os i content w a b, cid_at_lem os j content w a b)),
    )
