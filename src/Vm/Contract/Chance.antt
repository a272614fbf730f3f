-- ===== src/Vm/Contract/Chance.antt =====
-- The random numbers of src/vm.c.
use basset_lang.Host.{Host}
