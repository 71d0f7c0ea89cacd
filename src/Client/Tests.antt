-- ===== src/Client/Tests.antt =====
-- The attempts to connect on concrete answers.
use tokioop.Prelude.{true, none, some, [], ◌∷◌, ℕ}
use tokioop.Python.{Exc, os_error, ok, err}
use tokioop.Client.{Target, Client}

abbrev answers : Target
answers = record { create = ok tt; locals = none; connect = ok tt; close = ok tt }

-- The connection is refused; 111 is the errno.
abbrev refuses : Target
refuses = record answers { connect = err (os_error 111) }

-- The local address is in use.
abbrev unbound : Target
unbound = record answers { locals = some ((true, err (os_error 98)) ∷ []) }

abbrev no_client : Client
no_client = record { next = 0; live = []; current = none; mine = []; exceptions = [] }

abbrev number_of : Exc → ℕ
number_of (os_error n) = n
number_of _ = 0
