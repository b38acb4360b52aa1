-- ===== src/Tests/Options.antt =====
-- A list of requests for one option.
use d_real_cmake.Prelude.{ℕ, ◌≡◌, List, [], ◌∷◌}
use d_real_cmake.Config.OptionValue.{
  Request, file, command_line, rank, top, latest, value_or, make, run, run-make,
}

abbrev requests : List (Request ℕ)
requests = command_line 4 ∷ file 5 ∷ command_line 6 ∷ file 7 ∷ []

run-make_example :
    (rank (run (make 1) requests).type ≡ top requests)
    × ((run (make 1) requests).value ≡ value_or (latest (top requests) requests) 1)
run-make_example = run-make 1 requests
