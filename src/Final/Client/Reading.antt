-- ===== src/Final/Client/Reading.antt =====
-- `read_request_file` and `main` of Final/src/client.c: the lines of a file become the requests
-- that are sent.
use mathlib.Core.List.{append_assoc, append-nil, Perm}
use mathlib.Core.List.Perm
use mathlib.Core.Path.{subst}
use cse_344_system_programmi.Base.{
  ℕ, zero, suc, ◌+◌, ◌≤◌, ◌<◌, ◌≡◌, ◌≢◌, ◌∙◌, refl, sym, ap, true, false, ◌&&◌, some, List, [], ◌∷◌,
  ◌++◌, map, length, length-append, All, replicate, ltb, ◌==◌, arith,
}
use cse_344_system_programmi.Base.Int.{ℤ, pos}
use cse_344_system_programmi.Base.Text.{Str, IsPlain, c_str-All}
use cse_344_system_programmi.Final.Structs.{ServerRequest, max_line_byte}
use cse_344_system_programmi.Final.Client.{
  max_req_num, parse_request, read_step, read_loop, read_request_file, create_threads, sent_by,
  client_main, ClientThreadArg, Sends, all_sent, next,
}

-- A line of the file that stands for a request.
pub record IsLine (junk : ServerRequest) (line : Str) (r : ServerRequest) : Type 0 where
  pub some_bytes : 0 < length line
  pub fits : length line < max_line_byte
  pub no_break : All IsPlain line
  pub parses : parse_request junk line ≡ some r

abbrev pub as_client : ServerRequest → ServerRequest
as_client r = record r { kind = pos 1 }

-- Each line after a number of empty ones.
abbrev pub text_of : List (ℕ × (Str × ServerRequest)) → List ℕ
text_of [] = []
text_of ((k, (line, r)) ∷ rest) = replicate k 10 ++ (line ++ 10 ∷ text_of rest)

abbrev pub requests_of : List (ℕ × (Str × ServerRequest)) → List ServerRequest
requests_of ls = map (λ l. l.1.1) ls

module _ (junk : ServerRequest) where
  read_loop-cons :
      (c : ℕ) (file buffer buffer' : List ℕ) (req req' : List ServerRequest)
      → read_step junk c buffer req ≡ some (buffer', req')
      → read_loop junk (c ∷ file) buffer req ≡ read_loop junk file buffer' req'
  unfolding read_loop
  read_loop-cons c file buffer buffer' req req' e = rw (read_loop, e) refl

  read_step-byte :
      (c : ℕ) (buffer : List ℕ) (req : List ServerRequest)
      → c ≢ 10
      → length buffer < max_line_byte
      → read_step junk c buffer req ≡ some (buffer ++ c ∷ [], req)
  unfolding read_step
  read_step-byte c buffer req free fits =
      let ne : (c == 10) ≡ false = ground arith in
      let room : ltb (length buffer) max_line_byte ≡ true = ground arith in rw (ne, room) refl

  read_step-line :
      (line : Str) (r : ServerRequest) (req : List ServerRequest)
      → IsLine junk line r
      → length req < max_req_num
      → read_step junk 10 line req ≡ some ([], req ++ r ∷ [])
  unfolding read_step
  read_step-line line r req h few =
      let used : (length line == 0) ≡ false = ground (arith, h.some_bytes) in
      let room : (ltb (length line) max_line_byte && ltb (length req) max_req_num) ≡ true =
        ground (arith, h.fits) in
      rw (used, room, c_str-All line h.no_break, h.parses) refl

  read_loop-blank :
      (k : ℕ) (file : List ℕ) (req : List ServerRequest)
      → read_loop junk (replicate k 10 ++ file) [] req ≡ read_loop junk file [] req
  unfolding read_step
  read_loop-blank zero file req = refl
  read_loop-blank (suc k) file req =
      read_loop-cons 10 (replicate k 10 ++ file) [] [] req req read_step-blank
      ∙ read_loop-blank k file req
    where
      read_step-blank : read_step junk 10 [] req ≡ some ([], req)
      read_step-blank = refl

  read_loop-bytes :
      (bs : Str) (file buffer : List ℕ) (req : List ServerRequest)
      → All IsPlain bs
      → length buffer + length bs ≤ max_line_byte
      → read_loop junk (bs ++ file) buffer req ≡ read_loop junk file (buffer ++ bs) req
  unfolding read_loop
  read_loop-bytes [] file buffer req h fits = rw (append-nil buffer) refl
  read_loop-bytes (c ∷ bs) file buffer req h fits =
      read_loop-cons c (bs ++ file) buffer (buffer ++ c ∷ []) req req
        (read_step-byte c buffer req h.0.0 (omega arith))
      ∙ (read_loop-bytes bs file (buffer ++ c ∷ []) req h.1
            (omega (arith, length-append buffer (c ∷ [])))
          ∙ ap (λ b. read_loop junk file b req) (append_assoc buffer (c ∷ []) bs))

  read_loop-line :
      (line : Str) (r : ServerRequest) (file : List ℕ) (req : List ServerRequest)
      → IsLine junk line r
      → length req < max_req_num
      → read_loop junk (line ++ 10 ∷ file) [] req ≡ read_loop junk file [] (req ++ r ∷ [])
  unfolding read_loop
  read_loop-line line r file req h room =
      read_loop-bytes line (10 ∷ file) [] req h.no_break (omega (arith, h.fits))
      ∙ read_loop-cons 10 file line [] req (req ++ r ∷ []) (read_step-line line r req h room)

  read_loop-lines :
      (ls : List (ℕ × (Str × ServerRequest))) (req : List ServerRequest)
      → All (λ l. IsLine junk l.1.0 l.1.1) ls
      → length req + length ls ≤ max_req_num
      → read_loop junk (text_of ls) [] req ≡ some (req ++ requests_of ls)
  unfolding read_loop
  read_loop-lines [] req h room = ap some (sym (append-nil req))
  read_loop-lines ((k, (line, r)) ∷ ls) req h room =
      read_loop-blank k (line ++ 10 ∷ text_of ls) req
      ∙ (read_loop-line line r (text_of ls) req h.0 (omega arith)
          ∙ (read_loop-lines ls (req ++ r ∷ []) h.1 (omega (arith, length-append req (r ∷ [])))
              ∙ ap some (append_assoc req (r ∷ []) (requests_of ls))))

  sent_by-threads :
      (port_number : ℤ) (ip_address : Str) (i : ℕ) (req : List ServerRequest)
      → map sent_by (create_threads port_number ip_address i req) ≡ map as_client req
  unfolding create_threads sent_by
  sent_by-threads port_number ip_address i [] = refl
  sent_by-threads port_number ip_address i (r ∷ req) =
      ap (λ l. as_client r ∷ l) (sent_by-threads port_number ip_address (i + 1) req)

  Sends-Perm :
      (threads : List ClientThreadArg) (sent : List ServerRequest)
      → Sends threads sent
      → Perm sent (map sent_by threads)
  Sends-Perm threads sent all_sent = Perm.refl []
  Sends-Perm threads sent (next {sent = rest} before after arg st) =
      Perm.trans (Perm.cons (sent_by arg) (Sends-Perm (before ++ after) rest st))
        (among before after arg)
    where
      among :
          (before after : List ClientThreadArg) (arg : ClientThreadArg)
          → Perm (sent_by arg ∷ map sent_by (before ++ after)) (map sent_by (before ++ arg ∷ after))
      among [] after arg = Perm.refl (sent_by arg ∷ map sent_by after)
      among (x ∷ before) after arg =
          Perm.trans (Perm.swap (sent_by x) (sent_by arg) (map sent_by (before ++ after)))
            (Perm.cons (sent_by x) (among before after arg))

  -- From a file of at most 1024 lines that parse, with empty lines between them, the client creates
  -- threads that send, in whatever order they come to it, one request per line, as type 1.
  pub client_main-lines :
      (port_number : ℤ) (ip_address : Str) (ls : List (ℕ × (Str × ServerRequest)))
      → All (λ l. IsLine junk l.1.0 l.1.1) ls
      → length ls ≤ max_req_num
      → (threads : List ClientThreadArg) × (client_main junk port_number ip_address (text_of ls)
          ≡ some threads)
        × ((sent : List ServerRequest)
            → Sends threads sent
            → Perm sent (map as_client (requests_of ls)))
  unfolding client_main read_request_file
  client_main-lines port_number ip_address ls h room =
      let threads = create_threads port_number ip_address 0 (requests_of ls) in
      (
        threads,
        rw (client_main, read_request_file, read_loop-lines ls [] h (omega arith)) refl,
        λ sent st.
            subst (Perm sent) (sent_by-threads port_number ip_address 0 (requests_of ls))
              (Sends-Perm threads sent st),
      )
