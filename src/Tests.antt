-- ===== src/Tests.antt =====
-- Concrete runs of the code of src/storage, src/socket and src/utils/threadpool.c.
mod Wire
mod Names
mod Trees
mod Queue
mod Cache
mod Sample
mod Resolver
mod Server
mod Load
