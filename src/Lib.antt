-- ===== src/Lib.antt =====
-- A verification library for the integration challenge: an ERP simulator and a "twin" (miniblp)
-- that take requests under a virtual clock and store what they are told.
--
-- The parts and how they interact. Every request to either server first passes a Governor, which
-- prices it in virtual time, counts it against a quota, limits its rate by a token bucket and
-- injects reproducible faults. The records, proposals and acks that pass are written to an append-
-- only revision store. The twin matches each invoice against the suppliers, orders, cost centers
-- and rates that it was told, in a fixed order of rules, and either raises one exception or prices
-- a posting on the calendar of Zurich; the ERP simulator checks a posting against its own orders,
-- books it as a numbered document once per external reference, and answers a repeated request with
-- the response stored for its key. Files of records go to and from both as CSV in a dialect. A
-- grader runs submissions against the two servers, and scores the assertions about each run.
-- Amounts and rates are exact decimals, whose products go through 128-bit integers.
--
--   U128       internal/model/u128.go: from_u64, mul64, cmp, add, sub, mul_pow10, bit, set_bit and
--              div_mod are the functions of these names.
--   Decimal    internal/model/decimal.go: new_decimal, rescale, add, sub, cmp, mul_rate; in
--              Decimal/Text, parse is ParseDecimal and print is String.
--   Money      internal/model/money.go: currency_scale, negated (Neg), add, sub; in
--              Money/Minor, new_money (NewMoney).
--   Clock      internal/simclock/clock.go and cost.go: advance, now, cost_row, cost.
--   Governor   internal/simclock/governor.go, metrics.go and token.go: new, admit and its parts
--              (counted, quarantine, bucket, limited, admitted), spend_quota, refill, note429;
--              Governor/Inject has the fault injectors, Governor/Token the access tokens, and
--              Governor/Events the runs: any sequence of the calls that change the state.
--   Store      internal/store/revision.go, store.go and segment.go: Store/Apply has apply
--              (applyLocked), get (getLocked) and history, Store/Replay the replay of a segment. A
--              stored line is what decodeRevision reads of it (stored_line), which may differ from
--              the revision that was indexed.
--   Proposals  internal/store/proposals.go: the proposal, normalized, and the table of AckProposal
--              (take_ack, post); in Proposals/Ack, ack_proposal (AckProposal) over what the store
--              holds, and Proposals/Acks has series of its calls.
--   Dates      internal/model/dates.go: days_from_civil, civil_from_days and their helpers,
--              last_sunday; Dates/Text has parse_date, print_date and the ranges, Dates/Zurich the
--              offsets and the instants.
--   Match      internal/miniblp/match.go and internal/model/entities.go: the lookups of a matcher
--              (purchase_order, daily_rate, conversion, convert_quantity) over what the store holds,
--              and in Match/Rules the rules of match_invoice in their order.
--   Posting    internal/erp/posting.go, with the lookups of data.go: reject_posting and the rules in
--              it; in Posting/Book, book_one and book over the documents of a run; in Posting/Shape,
--              decode_posting_items and validate_posting_item; in Posting/Serve, serve_posting; in
--              Posting/Runs, any requests one after the other (serve_all), and in Posting/Resent one
--              that is sent again; in Posting/Numbers, po_key (poKey) beside canonical_po_number.
--   Keys       internal/model/keys.go: join_key, split_key and the keys of the entities.
--   Csv        internal/httpx/csv.go: resolve (CSVDialect.resolve), write_csv; in Csv/Read, parse_csv; in
--              Csv/Forms, the dates of a dialect (date_from_dialect, date_to_dialect) and trim_cell.
--   Grade      internal/grader/assert.go: validate_assertion (Assertion.Validate), evaluate; in
--              Grade/Score, the blocks of internal/grader/score.go, and in Grade/Compute its flags, band
--              and verdict, and compute.
--   Idempotency internal/httpx/idempotency.go: new_store, put with evict, check; Idempotency/Retention
--              has the runs of responses.
--   Text       what these use of Go's strings and sort packages, and of unicode/utf8 (Text/Utf8).
--   Prelude    shared tests on numbers, lists, errors, Go's int64 and powers.
--
-- Conventions. An int64 that may be negative is a ℤ and wraps where the code can overflow; a
-- counter that starts at zero and only grows is a natural number, which is the code while it is
-- below 2^63; the products of configuration values in New are taken exact. A uint64 is a number
-- below 2^64. A Go string is its bytes, a Go map from strings is a function, and a mutex makes a
-- method one step. Loops are structural recursion; the only fuel is the 20 digits of a uint64 in
-- decimal, which are enough since 2^64 is below 10^20, the 128 steps of the long division, which
-- are its bits, and the runes of a text for the loop of parseCSV, which is enough by the theorem
-- about its end. A segment file is the list of its lines and an offset a place in it; what the
-- disk does to a write is an argument, a Truncate that fails included, whose left bytes are noted
-- and not followed further. A read of the store by the matching engine, with the decoding of its
-- payload, is a field of a record of tables. Day counts and seconds are exact integers. What
-- encoding/json reads of a posting and writes of an answer, the hash of a body, and whether a
-- content type is JSON are arguments; an answer is then its status and its bytes, or the failure.
-- SHA-256, and the canonical JSON under it, are parameters: a hash, of which nothing is assumed,
-- and the form in which a text is stored, of which a theorem says what it assumes (that it is its
-- own canonical form and leaves a key, a hash or a status as it is). The points of a scorecard are
-- summed in int64s that wrap.
--
-- Not modelled: HTTP, HTML and XML handling, the writing of a matched invoice as a proposal and of
-- an exception to the store, the importers, the seed data, the checks that the grader runs on files
-- and the runs themselves, the exception queue, the state digest, and concurrency beyond whole
-- steps. Of the matching engine the grouping of lines that are delivered apart from their invoice,
-- and the details and locators of exceptions, are left out.
pub mod Prelude
pub mod Clock
pub mod Csv
pub mod Dates
pub mod Decimal
pub mod Governor
pub mod Grade
pub mod Idempotency
pub mod Keys
pub mod Match
pub mod Money
pub mod Posting
pub mod Proposals
pub mod Store
pub mod Text
pub mod U128
