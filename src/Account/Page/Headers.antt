-- ===== src/Account/Page/Headers.antt =====
-- What the continuation fields are when the header callback is given whole lines that end in CRLF,
-- as HTTP has them.
use stock_trading_bot_server.Prelude.{
  ℕ, ◌≡◌, refl, ◌≢◌, ◌⊎◌, inl, inr, Bool, true, false, List, [], ◌∷◌, ◌++◌, arith, ◌==◌, All,
}
use mathlib.Core.List.{append_assoc, append-nil}
use stock_trading_bot_server.Text.{Text, codes, text_eq, Lacks}
use stock_trading_bot_server.Curl.{header_callback, received_by}
use stock_trading_bot_server.Utility.Convert.{get_json_data, has_char, after_char}
use stock_trading_bot_server.Account.Page.{
  Fields, lines_from, lines, read_header, read_headers, header_fields,
}

-- A line as libcurl hands it over: its text, with no newline inside, then CR LF.
pub data IsHeaderLine (chunk : Text) : Type 0 where
  line : (u : Text) → Lacks b'\n' u → chunk ≡ u ++ (b'\r' ∷ b'\n' ∷ []) → IsHeaderLine chunk

abbrev pub ends_in_cr : Text → Bool
ends_in_cr [] = false
ends_in_cr (c ∷ []) = c == b'\r'
ends_in_cr (c ∷ d ∷ t) = ends_in_cr (d ∷ t)

abbrev EndInCr : List Text → Type 0
EndInCr = All (λ l. ends_in_cr l ≡ true)

ends_in_cr-append : (t : Text) → ends_in_cr (t ++ (b'\r' ∷ [])) ≡ true
ends_in_cr-append [] = refl
ends_in_cr-append (c ∷ []) = refl
ends_in_cr-append (c ∷ d ∷ t) = ends_in_cr-append (d ∷ t)

-- The lines of a buffer that begins with a whole line.
lines_from-line :
    (acc u rest : Text)
    → Lacks b'\n' u
    → lines_from acc (u ++ (b'\r' ∷ b'\n' ∷ rest))
      ≡ (acc ++ (u ++ (b'\r' ∷ []))) ∷ lines_from [] rest
unfolding lines_from
lines_from-line acc [] rest h = refl
lines_from-line acc (c ∷ u) rest (n, h) = ground (
  arith,
  lines_from-line (acc ++ (c ∷ [])) u rest h,
  append_assoc acc (c ∷ []) (u ++ (b'\r' ∷ [])),
)

buffer_split :
    (b : Text) (chunks : List Text)
    → received_by header_callback b chunks ≡ b ++ received_by header_callback [] chunks
unfolding received_by header_callback
buffer_split b [] = rw append-nil
buffer_split b (c ∷ chunks) = rw (buffer_split (b ++ c) chunks, buffer_split c chunks, append_assoc)

-- The buffer of a transfer splits into lines that still end in the carriage return.
lines-EndInCr :
    (chunks : List Text)
    → All IsHeaderLine chunks
    → EndInCr (lines (received_by header_callback [] chunks))
unfolding lines received_by header_callback lines_from
lines-EndInCr [] h = tt
lines-EndInCr (c ∷ chunks) (line u clean e, h) =
    rw
      (
        buffer_split c chunks,
        e,
        append_assoc u (b'\r' ∷ b'\n' ∷ []) (received_by header_callback [] chunks),
        lines_from-line [] u (received_by header_callback [] chunks) clean,
      )
      (ends_in_cr-append u, lines-EndInCr chunks h)

ends_in_cr-tail : (c : ℕ) (t : Text) → c ≢ b'\r' → ends_in_cr (c ∷ t) ≡ true → ends_in_cr t ≡ true
ends_in_cr-tail c [] n h = ground arith
ends_in_cr-tail c (d ∷ t) n h = h

ends_in_cr-after_char :
    (t : Text)
    → ends_in_cr t ≡ true
    → has_char b':' t ≡ true
    → ends_in_cr (after_char b':' t) ≡ true
unfolding has_char after_char
ends_in_cr-after_char [] h k = ground arith
ends_in_cr-after_char (c ∷ []) h k = ground arith
ends_in_cr-after_char (c ∷ d ∷ t) h k = ground (arith, ends_in_cr-after_char (d ∷ t) h)

-- No value that is read from such lines is the `Y` that the loop tests for.
abbrev NeverY : Fields → Type 0
NeverY f = (f.cont ≡ codes "N") ⊎ (ends_in_cr f.cont ≡ true)

read_header-NeverY :
    (f : Fields) (l : Text) → ends_in_cr l ≡ true → NeverY f → NeverY (read_header f l)
unfolding read_header get_json_data
read_header-NeverY f l h k = ground (arith, ends_in_cr-after_char l h)

read_headers-NeverY :
    (f : Fields) (ls : List Text) → EndInCr ls → NeverY f → NeverY (read_headers f ls)
unfolding read_headers
read_headers-NeverY f [] h k = k
read_headers-NeverY f (l ∷ ls) (h, hs) k =
    read_headers-NeverY (read_header f l) ls hs (read_header-NeverY f l h k)

not-y : (f : Fields) → NeverY f → text_eq f.cont (codes "Y") ≡ false
unfolding codes text_eq
not-y f (inl e) = rw e
not-y f (inr e) = go f.cont e
  where
    go : (t : Text) → ends_in_cr t ≡ true → text_eq t (codes "Y") ≡ false
    go [] h = refl
    go (c ∷ []) h = ground arith
    go (c ∷ d ∷ t) h = ground arith

-- Whatever header lines a server sends, also `cont-yn:Y`: where each one ends in CR LF, the carriage
-- return stays in the value, and the test for a further page fails.
pub header_fields-crlf :
    (chunks : List Text)
    → All IsHeaderLine chunks
    → text_eq (header_fields (received_by header_callback [] chunks)).cont (codes "Y") ≡ false
unfolding header_fields
header_fields-crlf chunks h =
    let first : Fields = record { cont = codes "N"; next_key = [] } in
    let buffer = received_by header_callback [] chunks in
    not-y (read_headers first (lines buffer))
      (read_headers-NeverY first (lines buffer) (lines-EndInCr chunks h) (inl refl))
