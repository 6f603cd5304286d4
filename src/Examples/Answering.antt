-- ===== src/Examples/Answering.antt =====
-- A direct message that takes an order of the user, at the example.
use democrit_marketplace.Prelude.{ℕ, ◌≡◌, some, codes, []}
use democrit_marketplace.Daemon.{Daemon, Setup, handle_private}
use democrit_marketplace.Daemon.Answers.{process_and_answer, handle_private-process_and_answer}
use democrit_marketplace.Examples.Accounts.{Jid}
use democrit_marketplace.Examples.Messages.{setup, daemon}
use democrit_marketplace.Examples.Selling.{offered, taking_it}

abbrev seller : Setup Jid ℕ
seller = record setup { account = codes "s" }

abbrev selling : Daemon Jid ℕ
selling = record (daemon [] []) { global = offered }

handle_private-process_and_answer_example :
    handle_private seller (codes "x", codes "c") (some taking_it) selling
    ≡ process_and_answer seller (codes "x", codes "c") (some taking_it) selling
handle_private-process_and_answer_example =
    handle_private-process_and_answer seller (codes "x", codes "c") (some taking_it) selling
