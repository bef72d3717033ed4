-- ===== src/Suite/Filters.antt =====
-- tst/unit/cpp/RemSvcServiceImplTest.cc: the tests of the access lists. What they rely on of
-- `std::regex` stands in a record, which a section takes as its parameter.
use rem_svc.Base.{
  All, [], ◌∷◌, ◌++◌, List, none, some, true, false, Bytes, codes, bytes_eq, exists_in, for_all,
  is_empty, if◌then◌else◌, ◌≡◌, refl,
}
use rem_svc.Base.Int.{pos}
use rem_svc.Proto.{permission_denied, is_ok, status_ok, empty_res}
use rem_svc.Policy.{RegexEngine, deny_all_text, denylist_text, allowlist_text}
use rem_svc.Service.{State, CmdRunner, rem_cmd, truncate_output}
use rem_svc.Service.Execute.{run_one}
use rem_svc.Policy.Verdict.{verdict, compiles, matches, check_allowed-make_policy}
use rem_svc.Service.Interface.{process_on}
use rem_svc.Suite.Fakes.{
  contains, make_fake_runner, command, make_req, fresh, call_on, Returns, stream_on,
}

-- The patterns `^echo\b`, `^dir\b`, `Get-\w+` and `rm\b`.
abbrev echo_pattern : Bytes
echo_pattern = codes "^echo\\b"

abbrev dir_pattern : Bytes
dir_pattern = codes "^dir\\b"

abbrev get_pattern : Bytes
get_pattern = codes "Get-\\w+"

abbrev rm_pattern : Bytes
rm_pattern = codes "rm\\b"

-- A pattern that compiles, and that is found in some texts, and in others not.
record Compiles (engine : RegexEngine) (pattern : Bytes) (found missed : List Bytes) : Type 0 where
  compiled : compiles engine pattern ≡ true
  finds : All (λ s. matches engine s pattern ≡ true) found
  misses : All (λ s. matches engine s pattern ≡ false) missed

-- ECMAScript's meaning of the patterns, on the commands that the tests send.
record KnownPatterns (engine : RegexEngine) : Type 0 where
  echo : Compiles engine echo_pattern (codes "echo hello" ∷ []) (codes "rm -rf /" ∷ [])
  dir : Compiles engine dir_pattern [] []
  get : Compiles engine get_pattern (codes "Get-Date" ∷ []) []
  rm : Compiles engine rm_pattern (codes "rm -rf /" ∷ []) (codes "echo hello" ∷ [])
  bracket : compiles engine (codes "[") ≡ false
  bad : compiles engine (codes "[bad") ≡ false

-- An engine that knows these patterns only, by a text that the commands contain.
abbrev stems : RegexEngine
stems = record {
  Regex = Bytes;
  compile = λ p.
      if bytes_eq p echo_pattern
      then some (codes "echo")
      else if bytes_eq p dir_pattern
      then some (codes "dir")
      else if bytes_eq p get_pattern
      then some (codes "Get-")
      else if bytes_eq p rm_pattern
      then some (codes "rm")
      else none;
  search = λ s stem. contains stem s;
}

stems-KnownPatterns : KnownPatterns stems
unfolding bytes_eq compiles matches
stems-KnownPatterns = record {
  echo = record { compiled = refl; finds = (refl, tt); misses = (refl, tt) };
  dir = record { compiled = refl; finds = tt; misses = tt };
  get = record { compiled = refl; finds = (refl, tt); misses = tt };
  rm = record { compiled = refl; finds = (refl, tt); misses = (refl, tt) };
  bracket = refl;
  bad = refl;
}

module _ {W : Type 0} (engine : RegexEngine) (allow deny : List Bytes) (cmd : Bytes) where
  passed :
      (runner : CmdRunner W) (s : State W)
      → verdict engine allow deny cmd ≡ []
      → call_on engine runner allow deny s (command cmd)
        ≡ (let (s', res) = run_one runner s (command cmd) in (s', status_ok, res))
  unfolding rem_cmd run_one
  passed runner s e = rw (check_allowed-make_policy engine allow deny cmd, e) refl

  refused :
      (runner : CmdRunner W) (s : State W) (text : Bytes)
      → verdict engine allow deny cmd ≡ text
      → is_empty text ≡ false
      → call_on engine runner allow deny s (command cmd)
        ≡ (s, record { code = permission_denied; message = text }, empty_res)
  unfolding rem_cmd
  refused runner s text e h = rw (check_allowed-make_policy engine allow deny cmd, e, h) refl

  stream_refused :
      (runner : CmdRunner W) (w : W) (text : Bytes)
      → verdict engine allow deny cmd ≡ text
      → is_empty text ≡ false
      → let req = make_req cmd (pos 0) [] in
        stream_on engine runner allow deny w (req ∷ [])
        ≡ some (
          fresh w,
          record { code = permission_denied; message = text },
          record { requests = req ∷ []; responses = []; idx = 1 },
        )
  unfolding process_on
  stream_refused runner w text e h = rw (check_allowed-make_policy engine allow deny cmd, e, h) refl

module _ (engine : RegexEngine) (known : KnownPatterns engine) where
  both_found : verdict engine (echo_pattern ∷ dir_pattern ∷ []) [] (codes "echo hello") ≡ []
  unfolding verdict exists_in for_all
  both_found = rw (known.echo.compiled, known.dir.compiled, known.echo.finds.0) refl

  echo_not_found :
      verdict engine (echo_pattern ∷ []) [] (codes "rm -rf /") ≡ allowlist_text ++ codes "rm -rf /"
  unfolding verdict exists_in for_all
  echo_not_found = rw (known.echo.compiled, known.echo.misses.0) refl

  get_found : verdict engine (get_pattern ∷ []) [] (codes "Get-Date") ≡ []
  unfolding verdict exists_in for_all
  get_found = rw (known.get.compiled, known.get.finds.0) refl

  mixed_list :
      verdict engine (echo_pattern ∷ codes "[bad" ∷ []) [] (codes "echo hello") ≡ deny_all_text
  unfolding verdict exists_in for_all
  mixed_list = rw (known.echo.compiled, known.bad) refl

  rm_found :
      verdict engine [] (rm_pattern ∷ []) (codes "rm -rf /") ≡ denylist_text ++ codes "rm -rf /"
  unfolding verdict exists_in for_all
  rm_found = rw (known.rm.compiled, known.rm.finds.0) refl

  rm_not_found : verdict engine [] (rm_pattern ∷ []) (codes "echo hello") ≡ []
  unfolding verdict exists_in for_all
  rm_not_found = rw (known.rm.compiled, known.rm.misses.0) refl

  in_both :
      verdict engine (echo_pattern ∷ []) (echo_pattern ∷ []) (codes "echo hello")
      ≡ denylist_text ++ codes "echo hello"
  unfolding verdict exists_in for_all
  in_both = rw (known.echo.compiled, known.echo.finds.0) refl

  in_first : verdict engine (echo_pattern ∷ []) (rm_pattern ∷ []) (codes "echo hello") ≡ []
  unfolding verdict exists_in for_all
  in_first = rw (known.echo.compiled, known.echo.finds.0, known.rm.compiled, known.rm.misses.0) refl

  bad_allow : (cmd : Bytes) → verdict engine (codes "[" ∷ []) [] cmd ≡ deny_all_text
  unfolding verdict exists_in for_all
  bad_allow cmd = rw known.bracket refl

  bad_deny : (cmd : Bytes) → verdict engine [] (codes "[" ∷ []) cmd ≡ deny_all_text
  unfolding verdict exists_in for_all
  bad_deny cmd = rw known.bracket refl

  abbrev AllowlistPermitsMatchingPattern : Type 0
  AllowlistPermitsMatchingPattern =
      let runner = make_fake_runner (codes "ok") (codes "") (pos 0) in
      let (svc, status, res) =
        call_on engine runner (echo_pattern ∷ dir_pattern ∷ []) [] (fresh tt)
          (command (codes "echo hello")) in
      (is_ok status ≡ true) × (res.out ≡ codes "ok")

  permits_echo : AllowlistPermitsMatchingPattern
  unfolding run_one truncate_output
  permits_echo =
      rw
        (passed engine (echo_pattern ∷ dir_pattern ∷ []) [] (codes "echo hello")
          (make_fake_runner (codes "ok") [] (pos 0)) (fresh tt) both_found)
        (refl, refl)

  abbrev AllowlistBlocksNonMatchingCommand : Type 0
  AllowlistBlocksNonMatchingCommand =
      let runner = make_fake_runner (codes "ok") (codes "") (pos 0) in
      let (svc, status, res) =
        call_on engine runner (echo_pattern ∷ []) [] (fresh tt) (command (codes "rm -rf /")) in
      (is_ok status ≡ false) × (status.code ≡ permission_denied) × (res.out ≡ codes "")

  blocks_rm : AllowlistBlocksNonMatchingCommand
  blocks_rm =
      rw
        (refused engine (echo_pattern ∷ []) [] (codes "rm -rf /")
          (make_fake_runner (codes "ok") [] (pos 0)) (fresh tt) (allowlist_text ++ codes "rm -rf /")
          echo_not_found refl)
        (refl, refl, refl)

  abbrev AllowlistRegexMatchesSubstring : Type 0
  AllowlistRegexMatchesSubstring =
      let runner = make_fake_runner (codes "ok") (codes "") (pos 0) in
      let (svc, status, res) =
        call_on engine runner (get_pattern ∷ []) [] (fresh tt) (command (codes "Get-Date")) in
      is_ok status ≡ true

  finds_inside : AllowlistRegexMatchesSubstring
  finds_inside =
      rw
        (passed engine (get_pattern ∷ []) [] (codes "Get-Date")
          (make_fake_runner (codes "ok") [] (pos 0)) (fresh tt) get_found)
        refl

  abbrev AllowlistBadRegexActivatesDenyAll : Type 0
  AllowlistBadRegexActivatesDenyAll =
      let runner = make_fake_runner (codes "ok") (codes "") (pos 0) in
      let (svc, status, res) =
        call_on engine runner (codes "[" ∷ []) [] (fresh tt) (command (codes "echo hello")) in
      (is_ok status ≡ false)
      × (status.code ≡ permission_denied)
      × (contains (codes "invalid") status.message ≡ true)
      × (res.out ≡ codes "")

  bad_allowlist : AllowlistBadRegexActivatesDenyAll
  bad_allowlist =
      rw
        (refused engine (codes "[" ∷ []) [] (codes "echo hello")
          (make_fake_runner (codes "ok") [] (pos 0)) (fresh tt) deny_all_text
          (bad_allow (codes "echo hello")) refl)
        (refl, refl, refl, refl)

  abbrev AllowlistMixedValidAndBadPatternDeniesAll : Type 0
  AllowlistMixedValidAndBadPatternDeniesAll =
      let runner = make_fake_runner (codes "ok") (codes "") (pos 0) in
      let (svc, status, res) =
        call_on engine runner (echo_pattern ∷ codes "[bad" ∷ []) [] (fresh tt)
          (command (codes "echo hello")) in
      (is_ok status ≡ false) × (status.code ≡ permission_denied)

  mixed_allowlist : AllowlistMixedValidAndBadPatternDeniesAll
  mixed_allowlist =
      rw
        (refused engine (echo_pattern ∷ codes "[bad" ∷ []) [] (codes "echo hello")
          (make_fake_runner (codes "ok") [] (pos 0)) (fresh tt) deny_all_text mixed_list refl)
        (refl, refl)

  abbrev DenylistBlocksMatchingCommand : Type 0
  DenylistBlocksMatchingCommand =
      let runner = make_fake_runner (codes "ok") (codes "") (pos 0) in
      let (svc, status, res) =
        call_on engine runner [] (rm_pattern ∷ []) (fresh tt) (command (codes "rm -rf /")) in
      (is_ok status ≡ false) × (status.code ≡ permission_denied) × (res.out ≡ codes "")

  denies_rm : DenylistBlocksMatchingCommand
  denies_rm =
      rw
        (refused engine [] (rm_pattern ∷ []) (codes "rm -rf /")
          (make_fake_runner (codes "ok") [] (pos 0)) (fresh tt) (denylist_text ++ codes "rm -rf /")
          rm_found refl)
        (refl, refl, refl)

  abbrev DenylistPermitsNonMatchingCommand : Type 0
  DenylistPermitsNonMatchingCommand =
      let runner = make_fake_runner (codes "ok") (codes "") (pos 0) in
      let (svc, status, res) =
        call_on engine runner [] (rm_pattern ∷ []) (fresh tt) (command (codes "echo hello")) in
      is_ok status ≡ true

  passes_echo : DenylistPermitsNonMatchingCommand
  passes_echo =
      rw
        (passed engine [] (rm_pattern ∷ []) (codes "echo hello")
          (make_fake_runner (codes "ok") [] (pos 0)) (fresh tt) rm_not_found)
        refl

  abbrev DenylistTakesPrecedenceOverAllowlist : Type 0
  DenylistTakesPrecedenceOverAllowlist =
      let runner = make_fake_runner (codes "ok") (codes "") (pos 0) in
      let (svc, status, res) =
        call_on engine runner (echo_pattern ∷ []) (echo_pattern ∷ []) (fresh tt)
          (command (codes "echo hello")) in
      (is_ok status ≡ false) × (status.code ≡ permission_denied)

  denied_first : DenylistTakesPrecedenceOverAllowlist
  denied_first =
      rw
        (refused engine (echo_pattern ∷ []) (echo_pattern ∷ []) (codes "echo hello")
          (make_fake_runner (codes "ok") [] (pos 0)) (fresh tt)
          (denylist_text ++ codes "echo hello") in_both refl)
        (refl, refl)

  abbrev BothListsCommandMustPassBoth : Type 0
  BothListsCommandMustPassBoth =
      let runner = make_fake_runner (codes "ok") (codes "") (pos 0) in
      let (svc, status, res) =
        call_on engine runner (echo_pattern ∷ []) (rm_pattern ∷ []) (fresh tt)
          (command (codes "echo hello")) in
      is_ok status ≡ true

  passes_both : BothListsCommandMustPassBoth
  passes_both =
      rw
        (passed engine (echo_pattern ∷ []) (rm_pattern ∷ []) (codes "echo hello")
          (make_fake_runner (codes "ok") [] (pos 0)) (fresh tt) in_first)
        refl

  abbrev DenylistBadRegexActivatesDenyAll : Type 0
  DenylistBadRegexActivatesDenyAll =
      let runner = make_fake_runner (codes "ok") (codes "") (pos 0) in
      let (svc, status, res) =
        call_on engine runner [] (codes "[" ∷ []) (fresh tt) (command (codes "echo hello")) in
      (is_ok status ≡ false) × (status.code ≡ permission_denied)

  bad_denylist : DenylistBadRegexActivatesDenyAll
  bad_denylist =
      rw
        (refused engine [] (codes "[" ∷ []) (codes "echo hello")
          (make_fake_runner (codes "ok") [] (pos 0)) (fresh tt) deny_all_text
          (bad_deny (codes "echo hello")) refl)
        (refl, refl)

  abbrev AllowlistBadRegexBlocksStreamToo : Type 0
  AllowlistBadRegexBlocksStreamToo =
      let runner = make_fake_runner (codes "ok") (codes "") (pos 0) in
      Returns
        (λ (svc, status, stream).
          (is_ok status ≡ false) × (status.code ≡ permission_denied) × (stream.responses ≡ []))
        (stream_on engine runner (codes "[" ∷ []) [] tt
          (make_req (codes "echo hi") (pos 0) [] ∷ []))

  bad_allowlist_in_stream : AllowlistBadRegexBlocksStreamToo
  bad_allowlist_in_stream =
      rw
        (stream_refused engine (codes "[" ∷ []) [] (codes "echo hi")
          (make_fake_runner (codes "ok") [] (pos 0)) tt deny_all_text (bad_allow (codes "echo hi"))
          refl)
        (refl, refl, refl)

  abbrev AllowlistBlocksInStream : Type 0
  AllowlistBlocksInStream =
      let runner = make_fake_runner (codes "ok") (codes "") (pos 0) in
      Returns
        (λ (svc, status, stream).
          (is_ok status ≡ false) × (status.code ≡ permission_denied) × (stream.responses ≡ []))
        (stream_on engine runner (echo_pattern ∷ []) [] tt
          (make_req (codes "rm -rf /") (pos 0) [] ∷ []))

  allowlist_in_stream : AllowlistBlocksInStream
  allowlist_in_stream =
      rw
        (stream_refused engine (echo_pattern ∷ []) [] (codes "rm -rf /")
          (make_fake_runner (codes "ok") [] (pos 0)) tt (allowlist_text ++ codes "rm -rf /")
          echo_not_found refl)
        (refl, refl, refl)

  abbrev DenylistBlocksInStream : Type 0
  DenylistBlocksInStream =
      let runner = make_fake_runner (codes "ok") (codes "") (pos 0) in
      Returns
        (λ (svc, status, stream).
          (is_ok status ≡ false) × (status.code ≡ permission_denied) × (stream.responses ≡ []))
        (stream_on engine runner [] (rm_pattern ∷ []) tt
          (make_req (codes "rm -rf /") (pos 0) [] ∷ []))

  denylist_in_stream : DenylistBlocksInStream
  denylist_in_stream =
      rw
        (stream_refused engine [] (rm_pattern ∷ []) (codes "rm -rf /")
          (make_fake_runner (codes "ok") [] (pos 0)) tt (denylist_text ++ codes "rm -rf /") rm_found
          refl)
        (refl, refl, refl)
