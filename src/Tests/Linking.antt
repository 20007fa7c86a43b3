-- ===== src/Tests/Linking.antt =====
-- vm/impl_env.hpp: an environment for the tests.
use letin.Common.{[]}
use letin.Link.Env.{Env}

abbrev pub no_names : Env
no_names = record { fun_indexes = []; fun_symbols = []; var_indexes = []; native_fun_indexes = [] }
